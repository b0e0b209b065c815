-- ===== src/Client/Answers.antt =====
-- What a client of include/cercall/client.h does when a call is answered, when an event arrives, and
-- when the connection fails.
use cercall.Base.{
  ℕ, ◌-◌, ◌≤◌, ◌<◌, ◌≡◌, refl, ◌∙◌, Bool, true, false, some, String, List, [], ◌∷◌, ◌++◌, map,
  append_assoc, append-nil, Map, lookup, insert, erase, string_eq, ◌==◌, length, All,
}
use cercall.Base.Exec.{ok}
use cercall.Error.{Error, is_error}
use cercall.Result.{Result}
use cercall.Archive.{Archive, Bytes, ResultVal, void, received, received_error}
use cercall.Serialization.{Serialization, failed}
use cercall.Messenger.{strip_header, reserve_message_header, size_max}
use cercall.Transport.{opened}
use cercall.CallQueue.Fifo.{waiting, is_enqueued-none, is_enqueued-some, dequeue_call-front}
use cercall.Client.State.{Client, ClosureFunction, QueuedCall, UserCall, closure_called, EventTy}
use cercall.Client.Calls.{after_sending, write-sent}
use cercall.Client.Sending.{broadcast_func_name, enqueue_closure}
use cercall.Client.Receiving.{
  call_closure, run_queued, set_call_queue, dequeue_next, dispatch_result, handle_message,
  deliver_result, deliver_found, dispatch, dispatch_error_to_closure, dispatch_errors,
  dispatch_connection_error,
}

module _ {lib : Archive} (S : Serialization lib) (type_name : String) (max_calls : ℕ)
    (event_type : EventTy lib) where
  -- The closure of an answered call is called with what the peer wrote.
  call_closure-received :
      (cl : ClosureFunction lib) (image rest : Bytes) (r : Result (ResultVal lib cl.result_type))
      (c : Client lib)
      → S.deserialize_result cl.result_type image ≡ some (r, rest)
      → call_closure S type_name max_calls event_type cl image c
        ≡ (ok tt, record c { calls = c.calls ++ closure_called cl.closure cl.result_type r ∷ [] })
  unfolding call_closure
  call_closure-received cl image rest r c e = rw e

  dequeue_next-none :
      (f : String) (c : Client lib)
      → waiting f c.call_queue ≡ []
      → dequeue_next S type_name max_calls event_type f c ≡ (ok tt, c)
  unfolding dequeue_next
  dequeue_next-none f c e = rw (is_enqueued-none (max_calls - 1) f c.call_queue e)

  -- A message whose name is that of a call in progress goes to `dispatch_result`.
  handle_message-result :
      (f : String) (msg image : Bytes) (c : Client lib)
      → S.deserialize_call c.archives msg ≡ some (f, image)
      → (f == broadcast_func_name S type_name max_calls) ≡ false
      → handle_message S type_name max_calls event_type msg c
        ≡ dispatch_result S type_name max_calls event_type f image c
  unfolding handle_message dispatch
  handle_message-result f msg image c e ne = rw e (rw ne)

  -- The message of a result for a call in progress, of a function that does not have the name of
  -- broadcasts and has no call waiting behind it: the closure of the call is called once with
  -- the result as it passes through the archive, and the function has no call in progress any
  -- more; nothing else changes.
  pub handle_message-answer :
      (f : String) (cl : ClosureFunction lib) (r : Result (ResultVal lib cl.result_type))
      (c : Client lib)
      → lookup f c.closures ≡ some cl
      → (f == broadcast_func_name S type_name max_calls) ≡ false
      → waiting f c.call_queue ≡ []
      → handle_message S type_name max_calls event_type
          (strip_header (S.serialize_call_result c.archives f cl.result_type r))
          c
        ≡ (
          ok tt,
          record c {
            closures = erase f c.closures;
            calls =
                c.calls
                ++ closure_called cl.closure cl.result_type (received lib cl.result_type r) ∷ [];
          },
        )
  unfolding dispatch_result deliver_found deliver_result
  handle_message-answer f cl r c found ne idle =
      let (image, named, read) =
        S.deserialize_result-serialize_call_result c.archives f cl.result_type r in
      handle_message-result f _ image c named ne
      ∙ rw found (
          rw (dequeue_next-none f (record c { closures = erase f c.closures }) idle) (
            call_closure-received cl image (S.tail c.archives) _
              (record c { closures = erase f c.closures }) read))

  run_queued-sent :
      (f : String) (q : QueuedCall lib) (body : Bytes) (c : Client lib)
      → q.msg ≡ reserve_message_header ++ body
      → length body ≤ size_max - 8
      → c.transport.state ≡ opened
      → c.transport.write_results ≡ []
      → run_queued S type_name max_calls event_type f q c ≡ (
        ok tt,
        record (after_sending body c) { closures = insert f q.closure_function c.closures },
      )
  unfolding run_queued enqueue_closure
  run_queued-sent f q body c m small o r = rw m (rw (write-sent body c small o r))

  dequeue_next-some :
      (f : String) (q : QueuedCall lib) (qs : List (QueuedCall lib)) (body : Bytes) (c : Client lib)
      → 0 < max_calls - 1
      → waiting f c.call_queue ≡ q ∷ qs
      → q.msg ≡ reserve_message_header ++ body
      → length body ≤ size_max - 8
      → c.transport.state ≡ opened
      → c.transport.write_results ≡ []
      → dequeue_next S type_name max_calls event_type f c ≡ (
        ok tt,
        record (after_sending body c) {
          closures = insert f q.closure_function c.closures;
          call_queue = insert f qs c.call_queue;
        },
      )
  unfolding dequeue_next
  dequeue_next-some f q qs body c queueing e m small o r =
      rw (is_enqueued-some (max_calls - 1) f c.call_queue q qs queueing e) (
        dequeue_call-front (λ (c' : Client lib). c'.call_queue)
          (set_call_queue S type_name max_calls event_type)
          (run_queued S type_name max_calls event_type f) f q qs c _ e
          (run_queued-sent f q body c m small o r) refl)

  pub handle_message-next :
      (f : String) (cl : ClosureFunction lib) (r : Result (ResultVal lib cl.result_type))
      (q : QueuedCall lib) (qs : List (QueuedCall lib)) (body : Bytes) (c : Client lib)
      → lookup f c.closures ≡ some cl
      → (f == broadcast_func_name S type_name max_calls) ≡ false
      → 0 < max_calls - 1
      → waiting f c.call_queue ≡ q ∷ qs
      → q.msg ≡ reserve_message_header ++ body
      → length body ≤ size_max - 8
      → c.transport.state ≡ opened
      → c.transport.write_results ≡ []
      → handle_message S type_name max_calls event_type
          (strip_header (S.serialize_call_result c.archives f cl.result_type r))
          c
        ≡ (
          ok tt,
          record (after_sending body c) {
            closures = insert f q.closure_function (erase f c.closures);
            call_queue = insert f qs c.call_queue;
            calls =
                c.calls
                ++ closure_called cl.closure cl.result_type (received lib cl.result_type r) ∷ [];
          },
        )
  unfolding dispatch_result deliver_found deliver_result
  handle_message-next f cl r q qs body c found ne queueing e m small o w =
      let (image, named, read) =
        S.deserialize_result-serialize_call_result c.archives f cl.result_type r in
      handle_message-result f _ image c named ne
      ∙ rw found (
          rw
            (dequeue_next-some f q qs body (record c { closures = erase f c.closures }) queueing e m
              small o w)
            (call_closure-received cl image (S.tail c.archives) _ _ read))

  -- What the closure of a call in progress is called with when the connection fails.
  abbrev pub error_call : Error → String × ClosureFunction lib → UserCall lib
  error_call e (name, cl) =
      closure_called cl.closure cl.result_type (failed lib cl.result_type (received_error e))

  abbrev pub IsNamed : String × ClosureFunction lib → Type 0
  IsNamed (name, cl) = (name == "") ≡ false

  abbrev error_message : Bool → Error → Bytes
  error_message archives e =
      strip_header (S.serialize_call_result archives "placeholder" void (failed lib void e))

  dispatch_error_to_closure-called :
      (e : Error) (name : String) (cl : ClosureFunction lib) (c : Client lib)
      → is_error e ≡ true
      → dispatch_error_to_closure S type_name max_calls event_type (error_message c.archives e) cl c
        ≡ (ok tt, record c { calls = c.calls ++ error_call e (name, cl) ∷ [] })
  unfolding dispatch_error_to_closure
  dispatch_error_to_closure-called e name cl c h =
      let (image, named, read) =
        S.deserialize_result-error c.archives "placeholder" cl.result_type e h in
      rw named (call_closure-received cl image (S.tail c.archives) _ c read)

  dispatch_errors-called :
      (e : Error) (cls : Map String (ClosureFunction lib)) (c : Client lib)
      → is_error e ≡ true
      → All IsNamed cls
      → dispatch_errors S type_name max_calls event_type (error_message c.archives e) cls c
        ≡ (ok tt, record c { calls = c.calls ++ map (error_call e) cls })
  unfolding dispatch_errors
  dispatch_errors-called e [] c h a = rw (append-nil c.calls)
  dispatch_errors-called e ((name, cl) ∷ cls) c h (n, a) = rw n (
      rw (dispatch_error_to_closure-called e name cl c h) (
        dispatch_errors-called e cls (record c { calls = c.calls ++ error_call e (name, cl) ∷ [] })
          h a
        ∙ rw (append_assoc c.calls (error_call e (name, cl) ∷ []) (map (error_call e) cls))))

  -- An error of the connection, with a code that is not 0, at a client whose calls in progress
  -- have names that are not empty: the closure of every call in progress is called once, with
  -- the error's code and message, and no call is in progress any more. The queued calls stay as
  -- they are: their closures are not called.
  pub dispatch_connection_error-called :
      (e : Error) (c : Client lib)
      → is_error e ≡ true
      → All IsNamed c.closures
      → dispatch_connection_error S type_name max_calls event_type e c
        ≡ (ok tt, record c { closures = []; calls = c.calls ++ map (error_call e) c.closures })
  unfolding dispatch_connection_error
  dispatch_connection_error-called e c h a = rw (dispatch_errors-called e c.closures c h a)
