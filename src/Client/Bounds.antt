-- ===== src/Client/Bounds.antt =====
-- How many calls of a function may wait at a client of include/cercall/client.h.
use cercall.Base.{ℕ, Option, none, String, List, [], ◌∷◌, Map, lookup, string_eq, arith}
use cercall.Base.Exec.{modify}
use cercall.Base.Keeps.{Keeps, Keeps-bind, Keeps-modify, Keeps-if, Keeps-pure, keeps_rules}
use cercall.Error.{Error, ErrorCode, System}
use cercall.Archive.{Archive, Bytes}
use cercall.Serialization.{Serialization}
use cercall.Transport.{
  Transport, Notification, connected, disconnected, connection_error, incoming_data, open_completed,
}
use cercall.Messenger.Keeps.{read-Keeps, init_transport-Keeps}
use cercall.Client.State.{
  Client, ClosureFunction, EventTy, no_event, plain_event, polymorphic_event,
}
use cercall.Client.Receiving.{
  plain_events, moved_events, dispatch_event, handle_message, client_channel, on_incoming_data,
  dispatch_error_to_closure, dispatch_errors, on_connection_error,
}
use cercall.Client.Connection.{
  add_listener, remove_listener, open_client, open_client_async, resolve_completed,
  connect_completed, close_client, read_completed, on_connected, notify_all,
}
use cercall.Client.History.{
  Operation, sends, sends_one_way, adds_listener, removes_listener, opens, opens_async, resolves,
  connects, closes, receives, step, run,
}
use cercall.Client.State.{new_client, open_called}
use cercall.Client.Waits.{
  call_closure-FewWait, set_closures-FewWait, dispatch_result-FewWait, FewWait, parts,
  check_thread_id-FewWait, on_disconnected-FewWait, call_user-FewWait, send_call-FewWait,
  send_one_way_call-FewWait,
}

module _ {lib : Archive} (S : Serialization lib) (type_name : String) (max_calls : ℕ)
    (event_type : EventTy lib) where
  plain_events-FewWait :
      (t : lib.Ty) (ev : lib.Val t) (ls : List ℕ)
      → Keeps (FewWait lib max_calls) (plain_events S type_name max_calls event_type t ev ls)
  unfolding plain_events
  plain_events-FewWait t ev [] = Keeps-pure tt
  plain_events-FewWait t ev (l ∷ ls) =
      Keeps-bind _ _ (call_user-FewWait S type_name max_calls event_type _)
        (λ _. plain_events-FewWait t ev ls)

  moved_events-FewWait :
      (t : lib.Ty) (ev : Option (lib.Val t)) (ls : List ℕ)
      → Keeps (FewWait lib max_calls) (moved_events S type_name max_calls event_type t ev ls)
  unfolding moved_events
  moved_events-FewWait t ev [] = Keeps-pure tt
  moved_events-FewWait t ev (l ∷ ls) =
      Keeps-bind _ _ (call_user-FewWait S type_name max_calls event_type _)
        (λ _. moved_events-FewWait t none ls)

  dispatch_event-FewWait :
      (e : EventTy lib) (ar : Bytes)
      → Keeps (FewWait lib max_calls) (dispatch_event S type_name max_calls event_type e ar)
  unfolding dispatch_event
  dispatch_event-FewWait no_event ar = Keeps-pure tt
  dispatch_event-FewWait (plain_event t) ar = search (keeps_rules, plain_events-FewWait)
  dispatch_event-FewWait (polymorphic_event t) ar = search (keeps_rules, moved_events-FewWait)

  handle_message-FewWait :
      (msg : Bytes)
      → Keeps (FewWait lib max_calls) (handle_message S type_name max_calls event_type msg)
  unfolding handle_message
  handle_message-FewWait msg =
      search (keeps_rules, dispatch_event-FewWait, dispatch_result-FewWait) depth 8

  on_incoming_data-FewWait :
      (n : ℕ) → Keeps (FewWait lib max_calls) (on_incoming_data S type_name max_calls event_type n)
  unfolding on_incoming_data
  on_incoming_data-FewWait n =
      Keeps-bind _ _ (check_thread_id-FewWait S type_name max_calls event_type _) λ _.
        read-Keeps (client_channel S type_name max_calls event_type) (FewWait lib max_calls)
          (λ m c h. h) (λ t c h. h) handle_message-FewWait n

  dispatch_error_to_closure-FewWait :
      (msg : Bytes) (cl : ClosureFunction lib)
      → Keeps
          (FewWait lib max_calls)
          (dispatch_error_to_closure S type_name max_calls event_type msg cl)
  unfolding dispatch_error_to_closure
  dispatch_error_to_closure-FewWait msg cl = search (keeps_rules, call_closure-FewWait)

  dispatch_errors-FewWait :
      (msg : Bytes) (cls : Map String (ClosureFunction lib))
      → Keeps (FewWait lib max_calls) (dispatch_errors S type_name max_calls event_type msg cls)
  unfolding dispatch_errors
  dispatch_errors-FewWait msg [] = Keeps-pure tt
  dispatch_errors-FewWait msg ((name, cl) ∷ cls) =
      Keeps-bind _ _ (Keeps-if _ _ _ (dispatch_error_to_closure-FewWait msg cl) (Keeps-pure tt))
        λ _. dispatch_errors-FewWait msg cls

  on_connection_error-FewWait :
      (e : Error)
      → Keeps (FewWait lib max_calls) (on_connection_error S type_name max_calls event_type e)
  unfolding on_connection_error
  on_connection_error-FewWait e =
      search (parts, dispatch_errors-FewWait, set_closures-FewWait) depth 9

  on_connected-FewWait :
      Keeps (FewWait lib max_calls) (on_connected S type_name max_calls event_type)
  unfolding on_connected
  on_connected-FewWait = Keeps-bind _ _ (Keeps-modify _ (λ c h. h)) λ _.
      init_transport-Keeps (client_channel S type_name max_calls event_type) (FewWait lib max_calls)
        (λ m c h. h) (λ t c h. h) handle_message-FewWait

  notify_all-FewWait :
      (notes : List Notification)
      → Keeps (FewWait lib max_calls) (notify_all S type_name max_calls event_type notes)
  unfolding notify_all
  notify_all-FewWait [] = Keeps-pure tt
  notify_all-FewWait (connected ∷ notes) =
      Keeps-bind _ _ on_connected-FewWait λ _. notify_all-FewWait notes
  notify_all-FewWait (disconnected ∷ notes) =
      Keeps-bind _ _ (on_disconnected-FewWait S type_name max_calls event_type)
        λ _. notify_all-FewWait notes
  notify_all-FewWait (connection_error e ∷ notes) =
      Keeps-bind _ _ (on_connection_error-FewWait e) λ _. notify_all-FewWait notes
  notify_all-FewWait (incoming_data n ∷ notes) =
      Keeps-bind _ _ (Keeps-bind _ _ (on_incoming_data-FewWait n) (λ _. Keeps-pure tt))
        λ _. notify_all-FewWait notes
  notify_all-FewWait (open_completed r ∷ notes) =
      Keeps-bind _ _ (call_user-FewWait S type_name max_calls event_type (open_called r))
        λ _. notify_all-FewWait notes

  set_transport-FewWait :
      (g : Client lib → Transport)
      → Keeps (FewWait lib max_calls) (modify (λ (c : Client lib). record c { transport = g c }))
  set_transport-FewWait g = record { at = λ c h. h }

  ruleset wholes = (parts, notify_all-FewWait)

  step-FewWait :
      (sys : System) (op : Operation lib) (c : Client lib)
      → FewWait lib max_calls c
      → FewWait lib max_calls (step S sys type_name max_calls event_type op c)
  unfolding step add_listener remove_listener open_client open_client_async resolve_completed
      connect_completed close_client read_completed
  step-FewWait sys (sends f cl args) c h =
      (send_call-FewWait S type_name max_calls event_type f cl args).at c h
  step-FewWait sys (sends_one_way f args) c h =
      (send_one_way_call-FewWait S type_name max_calls event_type f args).at c h
  step-FewWait sys (adds_listener l) c h = h
  step-FewWait sys (removes_listener l) c h = h
  step-FewWait sys (opens r) c h =
      let k : Keeps (FewWait lib max_calls) (open_client S type_name max_calls event_type r) =
        search wholes in
      k.at c h
  step-FewWait sys (opens_async e) c h =
      let k : Keeps (FewWait lib max_calls) (open_client_async S type_name max_calls event_type e) =
        search wholes in
      k.at c h
  step-FewWait sys (resolves ec) c h =
      let k : Keeps (FewWait lib max_calls)
          (resolve_completed S type_name max_calls event_type ec) =
        search wholes in
      k.at c h
  step-FewWait sys (connects ec) c h =
      let k : Keeps (FewWait lib max_calls)
          (connect_completed S type_name max_calls event_type ec) =
        search wholes in
      k.at c h
  step-FewWait sys closes c h =
      let k : Keeps (FewWait lib max_calls) (close_client S type_name max_calls event_type) =
        search parts in
      k.at c h
  step-FewWait sys (receives ec bytes n) c h =
      let k : Keeps (FewWait lib max_calls)
          (read_completed S type_name max_calls event_type sys ec bytes n) =
        search (wholes, set_transport-FewWait) in
      k.at c h

  run-FewWait_from :
      (sys : System) (ops : List (Operation lib)) (c : Client lib)
      → FewWait lib max_calls c
      → FewWait lib max_calls (run S sys type_name max_calls event_type ops c)
  unfolding run
  run-FewWait_from sys [] c h = h
  run-FewWait_from sys (op ∷ ops) c h = run-FewWait_from sys ops _ (step-FewWait sys op c h)

  -- Whatever the user and the network do, and however the operations end, of any one function at
  -- most `MaxCallsInProgress` - 1 calls wait at the client.
  pub run-FewWait :
      (sys : System) (ops : List (Operation lib)) (thread : ℕ) (results : List ErrorCode)
      → FewWait lib max_calls
          (run S sys type_name max_calls event_type ops (new_client lib thread results))
  unfolding new_client lookup
  run-FewWait sys ops thread results = run-FewWait_from sys ops _ (λ f. omega arith)
