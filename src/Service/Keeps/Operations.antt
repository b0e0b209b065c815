-- ===== src/Service/Keeps/Operations.antt =====
-- What the operations of a service of include/cercall/service.h keep, but for the two that change the
-- transports themselves: whatever its calls of a transport, of a function and of a messenger keep.
use cercall.Base.{
  ℕ, zero, suc, ◌-◌, Bool, true, false, ◌&&◌, if◌then◌else◌, String, List, [], ◌∷◌, Map, nat_eq,
  nat_beq, length,
}
use cercall.Base.Exec.{Exec, pure, gets, ◌>>=◌}
use cercall.Base.Int.{is_zero}
use cercall.Base.Keeps.{
  Keeps, Keeps-after, Keeps-gets, Keeps-bind, Keeps-modify, Keeps-pure, Keeps-test, Keeps-throw,
  keeps_rules,
}
use cercall.Error.{Error, ErrorCode, System}
use cercall.Archive.{Archive, Bytes, Arg}
use cercall.Serialization.{Serialization}
use cercall.Transport.{
  Notification, connected, disconnected, connection_error, incoming_data, open_completed,
}
use cercall.Messenger.{Messenger, start_read, init_transport}
use cercall.Messenger
use cercall.Messenger.Keeps.{read-Keeps}
use cercall.Acceptor.{
  report_accept, start_accept, Acceptor, open_acceptor, close_acceptor, accept_completed,
}
use cercall.Service.State.{
  Service, ClientState, check_thread_id, on_disconnected, write, close_transport,
}
use cercall.Service.Dispatch.{dispatch_func}
use cercall.Service.Clients.{
  set_acceptor, handle_message, service_channel, on_incoming_data, on_accept_error, accept_client,
  start, client_accepted, close_first, close_clients, stop, broadcast_to, broadcast_loop, broadcast,
  notify, notify_all,
}

-- A completed accept is not in progress any more.
module _ {lib : Archive} where
  abbrev pub one_less : Service lib → Service lib
  one_less s = record s { acceptor = record s.acceptor { accepting = s.acceptor.accepting - 1 } }

module _ {lib : Archive} (P : Service lib → Type 0) where
  pub check_thread_id-Keeps : (m : String) → Keeps P (check_thread_id lib m)
  unfolding check_thread_id
  check_thread_id-Keeps m =
      Keeps-test (λ s. nat_beq s.caller s.thread_id) _ _ (Keeps-pure tt) (Keeps-throw _)

-- What the parts of the operations keep.
pub record KeepsParts {lib : Archive} (S : Serialization lib) (sys : System) (type_name : String)
    (P : Service lib → Type 0) : Type 0 where
  pub writes : (p : ℕ) (msg : Bytes) → Keeps P (write lib p msg)
  pub closes : (p : ℕ) → Keeps P (close_transport lib p)
  pub disconnects : (p : ℕ) → Keeps P (on_disconnected lib p)
  pub dispatches : (p : ℕ) (f : String) (args : Bytes) → Keeps P (dispatch_func S sys p f args)
  pub sets_acceptor : (a : Acceptor) (s : Service lib) → P s → P (record s { acceptor = a })
  pub sets_messenger :
      (p : ℕ) (m : Messenger) (s : Service lib)
      → P s
      → P ((service_channel S sys type_name p).set_messenger m s)
  pub starts_read :
      (p n : ℕ) (s : Service lib) → P s → P (start_read (service_channel S sys type_name p) n s)

module _ {lib : Archive} (S : Serialization lib) (sys : System) (type_name : String)
    (P : Service lib → Type 0) (parts : KeepsParts S sys type_name P) where
  write-Keeps : (p : ℕ) (msg : Bytes) → Keeps P (write lib p msg)
  write-Keeps p msg = parts.writes p msg

  close_transport-Keeps : (p : ℕ) → Keeps P (close_transport lib p)
  close_transport-Keeps p = parts.closes p

  on_disconnected-Keeps : (p : ℕ) → Keeps P (on_disconnected lib p)
  on_disconnected-Keeps p = parts.disconnects p

  dispatch_func-Keeps : (p : ℕ) (f : String) (args : Bytes) → Keeps P (dispatch_func S sys p f args)
  dispatch_func-Keeps p f args = parts.dispatches p f args

  set_acceptor-Keeps : (a : Acceptor) (s : Service lib) → P s → P (record s { acceptor = a })
  set_acceptor-Keeps a s h = parts.sets_acceptor a s h

  ruleset operation_rules = (
    keeps_rules, Keeps-modify, check_thread_id-Keeps, write-Keeps, close_transport-Keeps,
    on_disconnected-Keeps, dispatch_func-Keeps, set_acceptor-Keeps,
  )

  handle_message-Keeps : (p : ℕ) (msg : Bytes) → Keeps P (handle_message S sys type_name p msg)
  unfolding handle_message
  handle_message-Keeps p msg = search operation_rules depth 12

  pub on_incoming_data-Keeps : (p n : ℕ) → Keeps P (on_incoming_data S sys type_name p n)
  unfolding on_incoming_data
  on_incoming_data-Keeps p n =
      search
        (
          operation_rules,
          read-Keeps (service_channel S sys type_name p) P (parts.sets_messenger p)
              (parts.starts_read p) (handle_message-Keeps p),
        )
        depth 8

  pub init_transport-Keeps : (p : ℕ) → Keeps P (init_transport (service_channel S sys type_name p))
  unfolding service_channel
  init_transport-Keeps p =
      Messenger.Keeps.init_transport-Keeps (service_channel S sys type_name p) P
        (parts.sets_messenger p) (parts.starts_read p) (handle_message-Keeps p)

  pub on_accept_error-Keeps : (e : Error) → Keeps P (on_accept_error S sys type_name e)
  unfolding on_accept_error
  on_accept_error-Keeps e = search operation_rules

  pub start-Keeps : (o b l : ErrorCode) → Keeps P (start S sys type_name o b l)
  unfolding start open_acceptor
  start-Keeps o b l = search (operation_rules, on_accept_error-Keeps) depth 24

  close_first-Keeps :
      (rest : Exec (Service lib) (Unit {0})) (m : Map ℕ ClientState)
      → Keeps P rest
      → Keeps P (close_first S sys type_name rest m)
  unfolding close_first
  close_first-Keeps rest [] k = Keeps-pure tt
  close_first-Keeps rest ((p, cs) ∷ m) k = Keeps-bind _ _ (close_transport-Keeps p) (λ _. k)

  close_clients-Keeps : (fuel : ℕ) → Keeps P (close_clients S sys type_name fuel)
  unfolding close_clients
  close_clients-Keeps zero = record { at = λ s h. h }
  close_clients-Keeps (suc fuel) = record {
    at = λ s h. (close_first-Keeps _ s.clients (close_clients-Keeps fuel)).at s h;
  }

  close_all-Keeps : Keeps P (λ s. close_clients S sys type_name (suc (length s.clients)) s)
  close_all-Keeps = record { at = λ s h. (close_clients-Keeps (suc (length s.clients))).at s h }

  pub stop-Keeps : Keeps P (stop S sys type_name)
  unfolding stop close_acceptor
  stop-Keeps = search (operation_rules, close_all-Keeps) depth 14

  broadcast_to-Keeps : (ev : Arg lib) (p : ℕ) → Keeps P (broadcast_to S sys type_name ev p)
  unfolding broadcast_to
  broadcast_to-Keeps ev p = search operation_rules depth 14

  broadcast_loop-Keeps :
      (ev : Arg lib) (ps : List ℕ) → Keeps P (broadcast_loop S sys type_name ev ps)
  unfolding broadcast_loop
  broadcast_loop-Keeps ev [] = Keeps-pure tt
  broadcast_loop-Keeps ev (p ∷ ps) =
      Keeps-bind _ _ (broadcast_to-Keeps ev p) (λ _. broadcast_loop-Keeps ev ps)

  pub broadcast-Keeps : (ev : Arg lib) → Keeps P (broadcast S sys type_name ev)
  unfolding broadcast
  broadcast-Keeps ev = search (operation_rules, broadcast_loop-Keeps) depth 8

  notify-Keeps : (p : ℕ) (note : Notification) → Keeps P (notify S sys type_name p note)
  unfolding notify
  notify-Keeps p connected = Keeps-pure tt
  notify-Keeps p disconnected = on_disconnected-Keeps p
  notify-Keeps p (connection_error e) = Keeps-pure tt
  notify-Keeps p (incoming_data n) = search (operation_rules, on_incoming_data-Keeps)
  notify-Keeps p (open_completed r) = Keeps-pure tt

  pub notify_all-Keeps :
      (p : ℕ) (notes : List Notification) → Keeps P (notify_all S sys type_name p notes)
  unfolding notify_all
  notify_all-Keeps p [] = Keeps-pure tt
  notify_all-Keeps p (n ∷ notes) = Keeps-bind _ _ (notify-Keeps p n) (λ _. notify_all-Keeps p notes)

  abbrev reported : ErrorCode → List ErrorCode → Bool → Exec (Service lib) (Unit {0})
  reported ec results still_open =
      report_accept (λ s. s.acceptor) (set_acceptor S sys type_name)
        (accept_client S sys type_name results) (on_accept_error S sys type_name) sys ec still_open

  abbrev accepted_or : ErrorCode → ℕ → List ErrorCode → Bool → Bool → Exec (Service lib) (Unit {0})
  accepted_or ec p results still_open fine =
      if fine then accept_client S sys type_name results p else reported ec results still_open

  abbrev accept_again : List ErrorCode → Bool → Exec (Service lib) (Unit {0})
  accept_again results again =
      if again
      then start_accept (λ s. s.acceptor) (set_acceptor S sys type_name)
          (accept_client S sys type_name results) (on_accept_error S sys type_name)
      else pure tt

  reported-Keeps :
      (ec : ErrorCode) (results : List ErrorCode) (still_open : Bool)
      → Keeps P (reported ec results still_open)
  unfolding report_accept
  reported-Keeps ec results still_open = search (operation_rules, on_accept_error-Keeps) depth 8

  accept_again-Keeps :
      (results : List ErrorCode) (again : Bool) → Keeps P (accept_again results again)
  unfolding start_accept
  accept_again-Keeps results again = search operation_rules depth 14

  accepted_or-Keeps :
      (ec : ErrorCode) (p : ℕ) (results : List ErrorCode) (still_open fine : Bool) (s : Service lib)
      → P s
      → P (accept_client S sys type_name results p s).1
      → P (accepted_or ec p results still_open fine s).1
  accepted_or-Keeps ec p results still_open true s h joins = joins
  accepted_or-Keeps ec p results still_open false s h joins =
      (reported-Keeps ec results still_open).at s h

  -- A completed accept, from what the new client keeps.
  pub client_accepted-Keeps :
      (ec : ErrorCode) (p : ℕ) (results : List ErrorCode) (s : Service lib)
      → P s
      → P (accept_client S sys type_name results p (one_less s)).1
      → P (client_accepted S sys type_name ec p results s).1
  unfolding client_accepted accept_completed
  client_accepted-Keeps ec p results s h joins =
      let still_open = s.acceptor.is_open in
      let fine = is_zero ec.value && still_open in
      let less =
        parts.sets_acceptor (record s.acceptor { accepting = s.acceptor.accepting - 1 }) s h in
      Keeps-after (accepted_or ec p results still_open fine)
        (λ _. gets (λ s. s.acceptor.is_open) >>= accept_again results) (one_less s)
        (accepted_or-Keeps ec p results still_open fine (one_less s) less joins)
        (λ _. Keeps-bind _ _ (Keeps-gets (λ s. s.acceptor.is_open)) (accept_again-Keeps results))
