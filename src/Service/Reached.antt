-- ===== src/Service/Reached.antt =====
-- The states that a service of include/cercall/service.h reaches, over any operations: every client has
-- an open transport that the service listens to, so that it can be stopped.
use cercall.Base.{
  ℕ, ◌≡◌, refl, true, false, not, if◌then◌else◌, Option, none, some, String, List, [], ◌∷◌, lookup,
  insert, lookup-insert, lookup-insert_self, nat_eq, nat_beq_iff, ◌==◌, Bool-cases, inl, inr,
}
use cercall.Base.Exec.{Exec, ok}
use cercall.Base.Keeps.{Keeps}
use cercall.Archive.{Archive}
use cercall.Error.{ErrorCode, System}
use cercall.Serialization.{Serialization}
use cercall.Transport
use cercall.Transport.{
  Transport, Notification, disconnected, connection_error, new, opened, new_transport,
}
use cercall.Messenger.{new_messenger, init_transport}
use cercall.FunctionDict.{FuncDict}
use cercall.Service.State.{Service, ClientState, new_service, on_transport}
use cercall.Service.Clients.{service_channel, accept_client, on_client_accepted, add_client}
use cercall.Service.Keeps.Operations.{
  client_accepted-Keeps, one_less, init_transport-Keeps, stop-Keeps, start-Keeps, broadcast-Keeps,
}
use cercall.Service.Served.{IsSound, IsHeard, placed-IsSound}
use cercall.Service.Closings.{close_transport-IsSound}
use cercall.Service.History.{
  Operation, starts, stops, broadcasts, accepts, receives, answers, closes_client, step, run,
}
use cercall.Service.Clients.{stop, broadcast_event}
use cercall.Service.Stops.{AreServed, stop-clients}
use cercall.Service.Receives.{parts-IsSound, call_closure-IsSound, read_completed-IsSound}

module _ {lib : Archive} (S : Serialization lib) (sys : System) (type_name : String) where
  -- A new client.
  abbrev joined : ℕ → Transport → ClientState → Service lib → Service lib
  joined p t cs s = record s {
    transports = insert p t s.transports;
    clients = insert p cs s.clients;
  }

  joined-IsSound :
      (p : ℕ) (t : Transport) (cs : ClientState) (s : Service lib)
      → IsHeard t
      → IsSound s
      → IsSound (joined p t cs s)
  joined-IsSound p t cs s (o, l) h = record {
    own = h.own;
    served = λ q cs' c. elim (Bool-cases (p == q)) [
      | inl same ↦ (t, rw (lookup-insert p q t s.transports, same) refl, o, l)
      | inr differs ↦
          let (t', at, o', l') =
            h.served q cs' (rw (lookup-insert p q cs s.clients, differs) at c) in
          (t', rw (lookup-insert p q t s.transports, differs) at, o', l')
    ];
  }

  init_transport-IsSound :
      (p : ℕ) → Keeps IsSound (init_transport (service_channel S sys type_name p))
  init_transport-IsSound =
      init_transport-Keeps S sys type_name IsSound (parts-IsSound S sys type_name)

  add_client-IsSound :
      (p : ℕ) (t : Transport) (s : Service lib)
      → lookup p s.transports ≡ some t
      → t.state ≡ new
      → t.has_listener ≡ true
      → IsSound s
      → IsSound (add_client S sys type_name p s).1
  unfolding add_client on_transport Transport.start
  add_client-IsSound p t s at fresh l h =
      rw (at, l, fresh)
        ((init_transport-IsSound p).at
          (joined p (record t { state = opened; has_listener = true })
            (record { messenger = new_messenger; archives = S.reusable_archive }) s)
          (joined-IsSound p (record t { state = opened; has_listener = true })
            (record { messenger = new_messenger; archives = S.reusable_archive }) s (refl, refl) h))

  if_absent :
      {A : Type 0} (o : Option ClientState) (m n : Exec (Service lib) A) (s : Service lib)
      → o ≡ none
      → IsSound (m s).1
      → IsSound ((if not (elim o [ none ↦ false | some cs ↦ true ]) then m else n) s).1
  if_absent none m n s e h = h
  if_absent (some cs) m n s e h = absurd (cc)

  -- The transport that the acceptor has made, whose listener is the service.
  abbrev accepted : ℕ → List ErrorCode → Service lib → Service lib
  accepted p results s = record s {
    transports =
        insert p (record (new_transport results) { has_listener = true })
          (insert p (new_transport results) s.transports);
  }

  accept_client-IsSound :
      (results : List ErrorCode) (p : ℕ) (s : Service lib)
      → lookup p s.clients ≡ none
      → IsSound s
      → IsSound (accept_client S sys type_name results p s).1
  unfolding accept_client on_client_accepted on_transport Transport.set_listener
  accept_client-IsSound results p s gone h =
      let made =
        placed-IsSound p (new_transport results) s (λ cs t c at heard. absurd (no_client cs c)) h in
      let heard =
        placed-IsSound p (record (new_transport results) { has_listener = true })
          (record s { transports = insert p (new_transport results) s.transports })
          (λ cs t c at heard. absurd (no_client cs c)) made in
      rw (lookup-insert_self p (new_transport results) s.transports) (
        if_absent (lookup p s.clients) (add_client S sys type_name p) _ (accepted p results s) gone
          (add_client-IsSound p (record (new_transport results) { has_listener = true })
            (accepted p results s) (lookup-insert_self p _ _) refl refl heard))
    where
      no_client : (cs : ClientState) → ¬ (lookup p s.clients ≡ some cs)
      no_client cs c = cc

  -- The address of a new transport is not that of a client, whose transport still exists.
  abbrev pub IsFresh : Operation lib → Service lib → Type 0
  IsFresh (accepts ec p results) s = lookup p s.clients ≡ none
  IsFresh _ s = Unit

  abbrev pub AreFresh : List (Operation lib) → Service lib → Type 0
  AreFresh [] s = Unit
  AreFresh (op ∷ ops) s = IsFresh op s × AreFresh ops (step S sys type_name op s)

  step-IsSound :
      (op : Operation lib) (s : Service lib)
      → IsFresh op s
      → IsSound s
      → IsSound (step S sys type_name op s)
  unfolding step broadcast_event
  step-IsSound (starts o b l) s f h =
      (start-Keeps S sys type_name IsSound (parts-IsSound S sys type_name) o b l).at s h
  step-IsSound stops s f h =
      (stop-Keeps S sys type_name IsSound (parts-IsSound S sys type_name)).at s h
  step-IsSound (broadcasts ev) s f h =
      (broadcast-Keeps S sys type_name IsSound (parts-IsSound S sys type_name) ev).at s h
  step-IsSound (accepts ec p results) s f h =
      client_accepted-Keeps S sys type_name IsSound (parts-IsSound S sys type_name) ec p results s h
        (accept_client-IsSound results p (one_less s) f (record { own = h.own; served = h.served }))
  step-IsSound (receives p ec bytes n) s f h =
      (read_completed-IsSound S sys type_name p ec bytes n).at s h
  step-IsSound (answers p g r res) s f h = (call_closure-IsSound S sys type_name p g r res).at s h
  step-IsSound (closes_client p) s f h = (close_transport-IsSound p).at s h

  run-IsSound :
      (ops : List (Operation lib)) (s : Service lib)
      → AreFresh ops s
      → IsSound s
      → IsSound (run S sys type_name ops s)
  unfolding run
  run-IsSound [] s f h = h
  run-IsSound (op ∷ ops) s (f, fs) h =
      run-IsSound ops (step S sys type_name op s) fs (step-IsSound op s f h)

  new_service-IsSound : (thread : ℕ) (dict : FuncDict lib) → IsSound (new_service lib thread dict)
  unfolding new_service lookup
  new_service-IsSound thread dict = record {
    own = (nat_beq_iff thread thread).1 refl;
    served = λ q cs c. absurd (cc);
  }

  -- From a new service on, whatever the operations are and however they end, if no transport is made
  -- at the address of a client: every client has an open transport that the service listens to.
  pub run-AreServed :
      (thread : ℕ) (dict : FuncDict lib) (ops : List (Operation lib))
      → AreFresh ops (new_service lib thread dict)
      → AreServed (run S sys type_name ops (new_service lib thread dict))
  run-AreServed thread dict ops f =
      (run-IsSound ops (new_service lib thread dict) f (new_service-IsSound thread dict)).served

  -- A service that is running after any such operations can be stopped: `stop` returns, and leaves no
  -- client and a closed acceptor.
  pub stop-run :
      (thread : ℕ) (dict : FuncDict lib) (ops : List (Operation lib))
      → AreFresh ops (new_service lib thread dict)
      → (run S sys type_name ops (new_service lib thread dict)).acceptor.is_open ≡ true
      → let (o, s) = stop S sys type_name (run S sys type_name ops (new_service lib thread dict)) in
        (o ≡ ok tt) × (s.clients ≡ []) × (s.acceptor.is_open ≡ false)
  stop-run thread dict ops f running =
      let sound =
        run-IsSound ops (new_service lib thread dict) f (new_service-IsSound thread dict) in
      stop-clients S sys type_name (run S sys type_name ops (new_service lib thread dict)) sound.own
        running sound.served
