-- ===== src/Client/Drains.antt =====
-- The calls of a function that wait at the client of include/cercall/client.h: as results come, every
-- one of them is sent and answered.
use cercall.Base.{
  ℕ, ◌-◌, ◌≤◌, ◌<◌, ◌≡◌, refl, sym, ap, ◌∙◌, false, none, some, String, List, [], ◌∷◌, ◌++◌,
  append_assoc, append-nil, length, lookup, insert, erase, lookup-insert_self, lookup-erase_self,
  string_eq, ◌==◌,
}
use cercall.Base.Exec.{ok, Exec, ◌>>◌}
use cercall.Result.{Result}
use cercall.Archive.{Archive, Bytes, ResultVal, received}
use cercall.Serialization.{Serialization}
use cercall.Messenger.{strip_header, reserve_message_header, size_max, size_bytes}
use cercall.Transport.{opened}
use cercall.CallQueue.{found_queue}
use cercall.CallQueue.Fifo.{waiting}
use cercall.Client.State.{Client, ClosureFunction, QueuedCall, EventTy, UserCall, closure_called}
use cercall.Client.Sending.{broadcast_func_name}
use cercall.Client.Receiving.{handle_message}
use cercall.Client.Calls.{after_sending}
use cercall.Client.Answers.{handle_message-answer, handle_message-next}

module _ (lib : Archive) where
  -- The result that a call of a closure's function gets.
  abbrev pub ResultFor : ClosureFunction lib → Type 0
  ResultFor cl = Result (ResultVal lib cl.result_type)

  -- A call that waits: its message is a body behind the place for a header, and not too long. It will
  -- get a result.
  pub record Waiter : Type 0 where
    pub call : QueuedCall lib
    pub body : Bytes
    pub result : ResultFor call.closure_function
    pub framed : call.msg ≡ reserve_message_header ++ body
    pub small : length body ≤ size_max - 8

  abbrev pub calls_of : List Waiter → List (QueuedCall lib)
  calls_of [] = []
  calls_of (w ∷ ws) = w.call ∷ calls_of ws

  -- What goes over the connection for the calls that wait.
  abbrev pub messages_of : List Waiter → List Bytes
  messages_of [] = []
  messages_of (w ∷ ws) = (size_bytes (length w.body) ++ w.body) ∷ messages_of ws

  -- The calls of the closures, the one in progress first.
  abbrev pub answers_of :
      (cl : ClosureFunction lib) → ResultFor cl → List Waiter → List (UserCall lib)
  answers_of cl r [] = closure_called cl.closure cl.result_type (received lib cl.result_type r) ∷ []
  answers_of cl r (w ∷ ws) =
      closure_called cl.closure cl.result_type (received lib cl.result_type r)
      ∷ answers_of w.call.closure_function w.result ws

module _ {lib : Archive} (S : Serialization lib) (type_name : String) (max_calls : ℕ)
    (event_type : EventTy lib) (f : String) where
  -- The messages of the results come in, the one of the call in progress first.
  pub receive_results :
      (cl : ClosureFunction lib)
      → ResultFor lib cl
      → List (Waiter lib)
      → Exec (Client lib) (Unit {0})
  receive_results cl r [] c =
      handle_message S type_name max_calls event_type
        (strip_header (S.serialize_call_result c.archives f cl.result_type r)) c
  receive_results cl r (w ∷ ws) c =
      (handle_message S type_name max_calls event_type
            (strip_header (S.serialize_call_result c.archives f cl.result_type r))
          >> receive_results w.call.closure_function w.result ws)
        c

  -- A call of a function is in progress, and calls of it wait, at a client that may queue calls, on an
  -- open connection whose socket takes what it is given; the function does not have the name of
  -- broadcasts. When the messages of the results have come, one for each of the calls: every call
  -- that waited has been sent, in the order in which they were queued; the closure of every one has
  -- been called, once and with its own result, in that order too; and no call of the function is in
  -- progress or waits.
  pub receive_results-answered :
      (cl : ClosureFunction lib) (r : ResultFor lib cl) (ws : List (Waiter lib)) (c : Client lib)
      → lookup f c.closures ≡ some cl
      → (f == broadcast_func_name S type_name max_calls) ≡ false
      → 0 < max_calls - 1
      → waiting f c.call_queue ≡ calls_of lib ws
      → c.transport.state ≡ opened
      → c.transport.write_results ≡ []
      → (d : Client lib) × (receive_results cl r ws c ≡ (ok tt, d))
        × (d.calls ≡ c.calls ++ answers_of lib cl r ws)
        × (d.transport.sent ≡ c.transport.sent ++ messages_of lib ws)
        × (lookup f d.closures ≡ none)
        × (waiting f d.call_queue ≡ [])
  unfolding receive_results
  receive_results-answered cl r [] c found ne queueing e o w = (
    _,
    handle_message-answer S type_name max_calls event_type f cl r c found ne e,
    refl,
    sym (append-nil c.transport.sent),
    lookup-erase_self f c.closures,
    e,
  )
  receive_results-answered cl r (x ∷ ws) c found ne queueing e o w =
      let c' : Client lib = record (after_sending x.body c) {
        closures = insert f x.call.closure_function (erase f c.closures);
        call_queue = insert f (calls_of lib ws) c.call_queue;
        calls =
            c.calls
            ++ closure_called cl.closure cl.result_type (received lib cl.result_type r) ∷ [];
      } in
      let (d, run, called, sent, idle, empty) =
        receive_results-answered x.call.closure_function x.result ws c'
          (lookup-insert_self f x.call.closure_function (erase f c.closures)) ne queueing
          (ap found_queue (lookup-insert_self f (calls_of lib ws) c.call_queue)) o w in
      (
        d,
        rw
            (handle_message-next S type_name max_calls event_type f cl r x.call (calls_of lib ws)
              x.body c found ne queueing e x.framed x.small o w)
            run,
        called
            ∙ append_assoc c.calls
                (closure_called cl.closure cl.result_type (received lib cl.result_type r) ∷ [])
                (answers_of lib x.call.closure_function x.result ws),
        sent
            ∙ append_assoc c.transport.sent ((size_bytes (length x.body) ++ x.body) ∷ [])
                (messages_of lib ws),
        idle,
        empty,
      )
