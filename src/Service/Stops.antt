-- ===== src/Service/Stops.antt =====
-- `stop` of include/cercall/service.h.
use cercall.Base.{
  ℕ, zero, suc, ◌<◌, ◌≤◌, ◌≡◌, refl, ap, String, true, false, some, [], ◌∷◌, Map, lookup, insert,
  erase, lookup-insert, lookup-erase, lookup-insert_self, nat_eq, nat_beq, ◌==◌, ==_refl, length,
  arith,
}
use cercall.Base.Exec.{Exec, Outcome, ok}
use cercall.Archive.{Archive}
use cercall.Error.{System}
use cercall.Serialization.{Serialization}
use cercall.Transport
use cercall.Transport.{Transport, opened, closed, Notification, disconnected}
use cercall.Acceptor.{Acceptor, close_acceptor}
use cercall.Service.State.{
  Service, ClientState, check_thread_id, on_transport, on_disconnected, notify_closed,
  close_transport,
}
use cercall.Service.Clients.{close_first, close_clients, stop}

-- The transport at an address is open, and the service hears of it.
abbrev pub IsServed : Map ℕ Transport → ℕ → Type 0
IsServed transports p =
    (t : Transport) × (lookup p transports ≡ some t) × (t.state ≡ opened) × (t.has_listener ≡ true)

abbrev pub AreServed : {lib : Archive} → Service lib → Type 0
AreServed s = (p : ℕ) (cs : ClientState) → lookup p s.clients ≡ some cs → IsServed s.transports p

pub erase_keeps :
    (p q : ℕ) (cs : ClientState) (m : Map ℕ ClientState)
    → lookup q (erase p m) ≡ some cs
    → (lookup q m ≡ some cs) × ((p == q) ≡ false)
erase_keeps p q cs m h = ground (arith, lookup-erase p q m)

length-erase : (p : ℕ) (m : Map ℕ ClientState) → length (erase p m) ≤ length m
unfolding erase
length-erase p [] = omega arith
length-erase p ((q, cs) ∷ m) = ground (arith, length-erase p m)

length-erase_first :
    (p : ℕ) (cs : ClientState) (m : Map ℕ ClientState) → length (erase p ((p, cs) ∷ m)) ≤ length m
unfolding erase
length-erase_first p cs m = rw (==_refl p) (length-erase p m)

pub lookup_first :
    (p : ℕ) (cs : ClientState) (m : Map ℕ ClientState) → lookup p ((p, cs) ∷ m) ≡ some cs
unfolding lookup
lookup_first p cs m = rw (==_refl p) refl

module _ {lib : Archive} where
  abbrev after_close : ℕ → Transport → Service lib → Service lib
  after_close p t s = record s {
    transports =
        insert p (record t { state = closed; has_listener = false })
          (insert p (record t { state = closed; has_listener = true }) s.transports);
    clients = erase p s.clients;
  }

  close_transport-served :
      (p : ℕ) (t : Transport) (s : Service lib)
      → nat_beq s.caller s.thread_id ≡ true
      → lookup p s.transports ≡ some t
      → t.state ≡ opened
      → t.has_listener ≡ true
      → close_transport lib p s ≡ (ok tt, after_close p t s)
  unfolding close_transport on_transport Transport.close notify_closed on_disconnected
      check_thread_id Transport.clear_listener
  close_transport-served p t s own found o l =
      rw (found, o, l)
        (rw
          (
            own,
            lookup-insert_self p (record t { state = closed; has_listener = true }) s.transports,
          )
          refl)

  after_close-AreServed :
      (p : ℕ) (t : Transport) (s : Service lib) → AreServed s → AreServed (after_close p t s)
  after_close-AreServed p t s served q cs h =
      let (found, ne) = erase_keeps p q cs s.clients h in
      let (t', at, o, l) = served q cs found in
      (
        t',
        rw
            (
              lookup-insert p q (record t { state = closed; has_listener = false })
                  (insert p (record t { state = closed; has_listener = true }) s.transports),
              ne,
              lookup-insert p q (record t { state = closed; has_listener = true }) s.transports,
              ne,
            )
            at,
        o,
        l,
      )

module _ {lib : Archive} (S : Serialization lib) (sys : System) (type_name : String) where
  abbrev pub IsDone : Acceptor → Outcome (Unit {0}) × Service lib → Type 0
  IsDone a (o, s) =
      (o ≡ ok tt) × (s.clients ≡ []) × (s.acceptor ≡ a) × (nat_beq s.caller s.thread_id ≡ true)

  abbrev Ends : Exec (Service lib) (Unit {0}) → ℕ → Type 0
  Ends rest fuel =
      (s : Service lib)
      → nat_beq s.caller s.thread_id ≡ true
      → AreServed s
      → length s.clients < fuel
      → IsDone s.acceptor (rest s)

  close_first-served :
      (fuel : ℕ) (rest : Exec (Service lib) (Unit {0})) (m : Map ℕ ClientState) (s : Service lib)
      → Ends rest fuel
      → s.clients ≡ m
      → nat_beq s.caller s.thread_id ≡ true
      → AreServed s
      → length m < suc fuel
      → IsDone s.acceptor (close_first S sys type_name rest m s)
  unfolding close_first
  close_first-served fuel rest [] s ends e own served enough = (refl, e, refl, own)
  close_first-served fuel rest ((p, cs) ∷ m) s ends e own served enough =
      let (t, found, o, l) = served p cs (rw e (lookup_first p cs m)) in
      rw (close_transport-served p t s own found o l) (
        ends (after_close p t s) own (after_close-AreServed p t s served)
          (rw e (omega (arith, length-erase_first p cs m))))

  close_clients-served : (fuel : ℕ) → Ends (close_clients S sys type_name fuel) fuel
  unfolding close_clients
  close_clients-served zero s own served enough = ground arith
  close_clients-served (suc fuel) s own served enough =
      close_first-served fuel (close_clients S sys type_name fuel) s.clients s
        (close_clients-served fuel) refl own served enough

  pub stop-IsDone :
      (s : Service lib)
      → nat_beq s.caller s.thread_id ≡ true
      → s.acceptor.is_open ≡ true
      → AreServed s
      → IsDone (record s.acceptor { is_open = false }) (stop S sys type_name s)
  unfolding stop close_acceptor check_thread_id
  stop-IsDone s own running served =
      rw (own, running)
        (close_clients-served (suc (length s.clients))
          (record s { acceptor = record s.acceptor { is_open = false } }) own served (omega arith))

  -- `stop` of a running service, called by its thread, all of whose clients have an open transport
  -- that the service listens to: the loop comes to its end, the acceptor is closed, and no client is
  -- left.
  pub stop-clients :
      (s : Service lib)
      → nat_beq s.caller s.thread_id ≡ true
      → s.acceptor.is_open ≡ true
      → AreServed s
      → ((stop S sys type_name s).0 ≡ ok tt)
        × ((stop S sys type_name s).1.clients ≡ [])
        × ((stop S sys type_name s).1.acceptor.is_open ≡ false)
  stop-clients s own running served =
      let (ended, none_left, same, _) = stop-IsDone s own running served in
      (ended, none_left, ap (λ a. a.is_open) same)
