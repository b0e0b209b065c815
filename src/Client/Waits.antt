-- ===== src/Client/Waits.antt =====
-- What the client of include/cercall/client.h does keeps the calls that wait for a function few: its
-- calls of the transport, what it sends, and the results that it gets.
use cercall.Base.{
  ℕ, ◌-◌, Option, none, some, String, List, [], ◌∷◌, Map, string_eq, nat_beq, Bool-cases, inl, inr,
}
use cercall.Base.Exec.{Exec, modify}
use cercall.Base.Keeps.{
  Keeps, Keeps-bind, Keeps-modify, Keeps-if, Keeps-test, Keeps-pure, Keeps-throw, keeps_rules,
}
use cercall.Archive.{Archive, Bytes, Arg}
use cercall.Serialization.{Serialization}
use cercall.Transport.{Transport, Notification}
use cercall.CallQueue.{can_enqueue, dequeue_call}
use cercall.CallQueue.Fifo.{
  IsBounded, enqueue_call-IsBounded, dequeue_call-Keeps, pop_front-IsBounded,
}
use cercall.Client.State.{
  Client, ClosureFunction, QueuedCall, UserCall, EventTy, check_thread_id, on_transport, call_user,
  notify_closed, on_disconnected, write,
}
use cercall.Client.Sending.{
  enqueue_closure, prepare_call_message, start_call, queue_call, start_or_queue, send_call,
  send_one_way_call,
}
use cercall.Client.Receiving.{
  run_queued, call_closure, dequeue_next, deliver_result, deliver_found, dispatch_result,
  set_call_queue,
}

-- The calls that wait for the same function are fewer than `MaxCallsInProgress`.
abbrev pub FewWait : (lib : Archive) → ℕ → Client lib → Type 0
FewWait lib max_calls c = IsBounded (max_calls - 1) c.call_queue

module _ {lib : Archive} (S : Serialization lib) (type_name : String) (max_calls : ℕ)
    (event_type : EventTy lib) where
  pub check_thread_id-FewWait : (s : String) → Keeps (FewWait lib max_calls) (check_thread_id lib s)
  unfolding check_thread_id
  check_thread_id-FewWait s =
      Keeps-test (λ c. nat_beq c.caller c.thread_id) _ _ (Keeps-pure tt) (Keeps-throw _)

  pub on_transport-FewWait :
      {A : Type 0} (m : Exec Transport A) → Keeps (FewWait lib max_calls) (on_transport lib m)
  on_transport-FewWait m = record { at = λ c h. h }

  pub on_disconnected-FewWait : Keeps (FewWait lib max_calls) (on_disconnected lib)
  unfolding on_disconnected
  on_disconnected-FewWait = check_thread_id-FewWait "cercall::Client::on_disconnected"

  pub notify_closed-FewWait :
      (notes : List Notification) → Keeps (FewWait lib max_calls) (notify_closed lib notes)
  unfolding notify_closed
  notify_closed-FewWait [] = search keeps_rules
  notify_closed-FewWait (_ ∷ notes) =
      Keeps-bind _ _ (on_disconnected-FewWait) (λ _. notify_closed-FewWait notes)

  pub write-FewWait : (msg : Bytes) → Keeps (FewWait lib max_calls) (write lib msg)
  unfolding write
  write-FewWait msg = search (keeps_rules, on_transport-FewWait, notify_closed-FewWait)

  pub call_user-FewWait : (u : UserCall lib) → Keeps (FewWait lib max_calls) (call_user lib u)
  call_user-FewWait u = record { at = λ c h. h }

  pub enqueue_closure-FewWait :
      (f : String) (cl : ClosureFunction lib)
      → Keeps (FewWait lib max_calls) (enqueue_closure S type_name max_calls f cl)
  unfolding enqueue_closure
  enqueue_closure-FewWait f cl = record { at = λ c h. h }

  pub ruleset parts = (
    keeps_rules, check_thread_id-FewWait, on_transport-FewWait, notify_closed-FewWait,
    write-FewWait, call_user-FewWait, enqueue_closure-FewWait,
  )

  pub prepare_call_message-FewWait :
      (f : String) (args : List (Arg lib))
      → Keeps (FewWait lib max_calls) (prepare_call_message S type_name max_calls f args)
  unfolding prepare_call_message
  prepare_call_message-FewWait f args = search parts depth 10

  pub start_call-FewWait :
      (f : String) (msg : Bytes) (cl : ClosureFunction lib)
      → Keeps (FewWait lib max_calls) (start_call S type_name max_calls f msg cl)
  unfolding start_call
  start_call-FewWait f msg cl = search parts depth 8

  pub queue_call-FewWait :
      (f : String) (msg : Bytes) (cl : ClosureFunction lib)
      → Keeps (FewWait lib max_calls) (queue_call S type_name max_calls f msg cl)
  unfolding queue_call
  queue_call-FewWait f msg cl = record {
    at = λ c h. elim (Bool-cases (can_enqueue (max_calls - 1) f c.call_queue)) [
      | inl e ↦ rw e (enqueue_call-IsBounded (max_calls - 1) f _ c.call_queue h e)
      | inr e ↦ rw e h
    ];
  }

  pub start_or_queue-FewWait :
      (f : String) (msg : Bytes) (cl : ClosureFunction lib) (o : Option (ClosureFunction lib))
      → Keeps (FewWait lib max_calls) (start_or_queue S type_name max_calls f msg cl o)
  unfolding start_or_queue
  start_or_queue-FewWait f msg cl none = start_call-FewWait f msg cl
  start_or_queue-FewWait f msg cl (some other) = queue_call-FewWait f msg cl

  pub send_call-FewWait :
      (f : String) (cl : ClosureFunction lib) (args : List (Arg lib))
      → Keeps (FewWait lib max_calls) (send_call S type_name max_calls f cl args)
  unfolding send_call
  send_call-FewWait f cl args = search (parts, prepare_call_message-FewWait, start_or_queue-FewWait)

  pub send_one_way_call-FewWait :
      (f : String) (args : List (Arg lib))
      → Keeps (FewWait lib max_calls) (send_one_way_call S type_name max_calls f args)
  unfolding send_one_way_call
  send_one_way_call-FewWait f args = search (parts, prepare_call_message-FewWait)

  pub run_queued-FewWait :
      (f : String) (call : QueuedCall lib)
      → Keeps (FewWait lib max_calls) (run_queued S type_name max_calls event_type f call)
  unfolding run_queued
  run_queued-FewWait f call = search parts

  pub call_closure-FewWait :
      (cl : ClosureFunction lib) (ar : Bytes)
      → Keeps (FewWait lib max_calls) (call_closure S type_name max_calls event_type cl ar)
  unfolding call_closure
  call_closure-FewWait cl ar = search parts

  pub dequeue_call-FewWait :
      (f : String)
      → Keeps (FewWait lib max_calls) (
          dequeue_call
            (λ (c : Client lib). c.call_queue)
            (set_call_queue S type_name max_calls event_type)
            (run_queued S type_name max_calls event_type f)
            f)
  dequeue_call-FewWait f =
      dequeue_call-Keeps _ _ {P = FewWait lib max_calls} _ f (run_queued-FewWait f)
        (λ c. pop_front-IsBounded (max_calls - 1) f c.call_queue)

  pub dequeue_next-FewWait :
      (f : String) → Keeps (FewWait lib max_calls) (dequeue_next S type_name max_calls event_type f)
  unfolding dequeue_next
  dequeue_next-FewWait f = search (keeps_rules, dequeue_call-FewWait)

  pub set_closures-FewWait :
      (g : Client lib → Map String (ClosureFunction lib))
      → Keeps (FewWait lib max_calls) (modify (λ (c : Client lib). record c { closures = g c }))
  set_closures-FewWait g = record { at = λ c h. h }

  pub deliver_result-FewWait :
      (f : String) (cl : ClosureFunction lib) (ar : Bytes)
      → Keeps (FewWait lib max_calls) (deliver_result S type_name max_calls event_type f cl ar)
  unfolding deliver_result
  deliver_result-FewWait f cl ar =
      Keeps-bind _ _ (set_closures-FewWait _)
        (λ _. Keeps-bind _ _ (dequeue_next-FewWait f) (λ _. call_closure-FewWait cl ar))

  pub deliver_found-FewWait :
      (f : String) (ar : Bytes) (o : Option (ClosureFunction lib))
      → Keeps (FewWait lib max_calls) (deliver_found S type_name max_calls event_type f ar o)
  unfolding deliver_found
  deliver_found-FewWait f ar none = Keeps-throw _
  deliver_found-FewWait f ar (some cl) = deliver_result-FewWait f cl ar

  pub dispatch_result-FewWait :
      (f : String) (ar : Bytes)
      → Keeps (FewWait lib max_calls) (dispatch_result S type_name max_calls event_type f ar)
  unfolding dispatch_result
  dispatch_result-FewWait f ar = search (keeps_rules, deliver_found-FewWait)
