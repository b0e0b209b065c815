-- ===== src/Service/Served.antt =====
-- Every client of the service of include/cercall/service.h has an open transport that the service
-- listens to: what its calls of a transport do to that.
use cercall.Base.{
  ℕ, ◌≡◌, sym, ◌∙◌, refl, true, false, none, some, lookup, insert, erase, lookup-insert, nat_eq,
  nat_beq, ◌==◌, Bool-cases, Option-cases, inl, inr, arith,
}
use cercall.Base.Exec.{Exec}
use cercall.Base.Keeps.{Keeps}
use cercall.Archive.{Archive}
use cercall.Transport
use cercall.Transport.{Transport, opened, Notification, disconnected}
use cercall.Service.State.{Service, ClientState, check_thread_id, on_transport, on_disconnected}
use cercall.Service.Stops.{AreServed, erase_keeps}

-- The service is called by its own thread, and its clients are served.
pub record IsSound {lib : Archive} (s : Service lib) : Type 0 where
  pub own : nat_beq s.caller s.thread_id ≡ true
  pub served : AreServed s

abbrev pub IsHeard : Transport → Type 0
IsHeard t = (t.state ≡ opened) × (t.has_listener ≡ true)

-- As IsSound, but the transport of the client at `p` need not be open any more.
pub record IsSoundBut {lib : Archive} (p : ℕ) (s : Service lib) : Type 0 where
  pub own : nat_beq s.caller s.thread_id ≡ true
  pub kept :
      (q : ℕ) (cs : ClientState)
      → lookup q s.clients ≡ some cs
      → (t : Transport) × (lookup q s.transports ≡ some t) × ((p == q) ≡ false → IsHeard t)

pub same_number : (p q : ℕ) → (p == q) ≡ true → p ≡ q
same_number p q e = ground (arith, e)

same_transport : (t t' : Transport) → some t ≡ some t' → IsHeard t' → IsHeard t
same_transport t t' e (o, l) = (ground arith, ground arith)

module _ {lib : Archive} where
  pub IsSoundBut-IsSound : (p : ℕ) (s : Service lib) → IsSound s → IsSoundBut p s
  IsSoundBut-IsSound p s h = record {
    own = h.own;
    kept = λ q cs e. let (t, at, o, l) = h.served q cs e in (t, at, λ ne. (o, l));
  }

  -- Another transport at an address.
  abbrev pub placed : ℕ → Transport → Service lib → Service lib
  placed p t s = record s { transports = insert p t s.transports }

  pub placed-IsSoundBut :
      (p : ℕ) (t : Transport) (s : Service lib) → IsSoundBut p s → IsSoundBut p (placed p t s)
  placed-IsSoundBut p t s h = record {
    own = h.own;
    kept = λ q cs e. elim (Bool-cases (p == q)) [
      | inl same ↦ (t, rw (lookup-insert p q t s.transports, same) refl, λ ne. absurd (cc))
      | inr differs ↦
          let (t', at, heard) = h.kept q cs e in
          (t', rw (lookup-insert p q t s.transports, differs) at, heard)
    ];
  }

  -- A transport that is open and heard, if the address is a client's and its transport was.
  pub placed-IsSound :
      (p : ℕ) (t : Transport) (s : Service lib)
      → ((cs : ClientState) (t' : Transport)
          → lookup p s.clients ≡ some cs
          → lookup p s.transports ≡ some t'
          → IsHeard t'
          → IsHeard t)
      → IsSound s
      → IsSound (placed p t s)
  placed-IsSound p t s keeps h = record {
    own = h.own;
    served = λ q cs e.
        let (t', at, o, l) = h.served q cs e in
        elim (Bool-cases (p == q)) [
          | inl same ↦
              let eq = same_number p q same in
              let (o', l') = keeps cs t' (rw eq e) (rw eq at) (o, l) in
              (t, rw (lookup-insert p q t s.transports, same) refl, o', l')
          | inr differs ↦ (t', rw (lookup-insert p q t s.transports, differs) at, o, l)
        ];
  }

  on_transport-IsSoundBut :
      {A : Type 0} (p : ℕ) (m : Exec Transport A) (s : Service lib)
      → IsSoundBut p s
      → IsSoundBut p (on_transport lib p m s).1
  unfolding on_transport
  on_transport-IsSoundBut p m s h = elim (Option-cases (lookup p s.transports)) [
    | inl e ↦ rw e h
    | inr (t, e) ↦ rw e (placed-IsSoundBut p (m t).1 s h)
  ]

  -- An operation that leaves an open transport open.
  pub on_transport-IsSound :
      {A : Type 0} (p : ℕ) (m : Exec Transport A)
      → ((t : Transport) → IsHeard t → IsHeard (m t).1)
      → Keeps IsSound (on_transport lib p m)
  unfolding on_transport
  on_transport-IsSound p m k = record {
    at = λ s h. elim (Option-cases (lookup p s.transports)) [
      | inl e ↦ rw e h
      | inr (t, e) ↦ rw e (
          placed-IsSound p (m t).1 s
            (λ cs t' c at heard. k t (same_transport t t' (sym e ∙ at) heard)) h)
    ];
  }

  -- A transport that is not a client's.
  pub on_transport-stranger :
      {A : Type 0} (p : ℕ) (m : Exec Transport A) (s : Service lib)
      → lookup p s.clients ≡ none
      → IsSound s
      → IsSound (on_transport lib p m s).1
  unfolding on_transport
  on_transport-stranger p m s gone h = elim (Option-cases (lookup p s.transports)) [
    | inl e ↦ rw e h
    | inr (t, e) ↦ rw e (placed-IsSound p (m t).1 s (λ cs t' c at heard. absurd (cc)) h)
  ]

  none-IsSound :
      (p : ℕ) (s : Service lib) → lookup p s.transports ≡ none → IsSoundBut p s → IsSound s
  none-IsSound p s e h = record {
    own = h.own;
    served = λ q cs c.
        let (t, at, heard) = h.kept q cs c in
        elim (Bool-cases (p == q)) [
          | inl same ↦ absurd (no_transport q t (same_number p q same) at)
          | inr differs ↦ let (o, l) = heard differs in (t, at, o, l)
        ];
  }
    where
      no_transport : (q : ℕ) (t : Transport) → p ≡ q → ¬ (lookup q s.transports ≡ some t)
      no_transport q t eq at = cc

  abbrev without : ℕ → Transport → Service lib → Service lib
  without p t s = record (placed p t s) { clients = erase p s.clients }

  without-IsSound :
      (p : ℕ) (t : Transport) (s : Service lib) → IsSoundBut p s → IsSound (without p t s)
  without-IsSound p t s h = record {
    own = h.own;
    served = λ q cs c.
        let (found, ne) = erase_keeps p q cs s.clients c in
        let (t', at, heard) = h.kept q cs found in
        let (o, l) = heard ne in (t', rw (lookup-insert p q t s.transports, ne) at, o, l);
  }

  -- What the service does with a client that is disconnected makes up for its transport.
  pub on_disconnected-IsSoundBut :
      (p : ℕ) (s : Service lib) → IsSoundBut p s → IsSound (on_disconnected lib p s).1
  unfolding on_disconnected check_thread_id on_transport Transport.clear_listener
  on_disconnected-IsSoundBut p s h = elim (Option-cases (lookup p s.transports)) [
    | inl e ↦ rw (h.own, e) (none-IsSound p s e h)
    | inr (t, e) ↦ rw (h.own, e) (without-IsSound p (record t { has_listener = false }) s h)
  ]

  pub on_disconnected-IsSound : (p : ℕ) → Keeps IsSound (on_disconnected lib p)
  on_disconnected-IsSound p = record {
    at = λ s h. on_disconnected-IsSoundBut p s (IsSoundBut-IsSound p s h);
  }
