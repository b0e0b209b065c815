-- ===== src/Client/Receiving.antt =====
-- What include/cercall/client.h does with messages, and with an error of the connection.
use cercall.Base.{
  ℕ, ◌-◌, true, Option, none, some, String, List, [], ◌∷◌, Map, lookup, erase, string_eq, ◌==◌,
  if◌then◌else◌, not,
}
use cercall.Base.Exec.{
  Outcome, ok, throws, archive_error, runtime_error, Exec, pure, throw, gets, modify, lift, ◌>>=◌,
  ◌>>◌,
}
use cercall.Error.{Error}
use cercall.Archive.{Archive, Bytes, void}
use cercall.Serialization.{Serialization, failed}
use cercall.Messenger.{Channel, read, strip_header}
use cercall.CallQueue.{is_enqueued, dequeue_call}
use cercall.Client.State.{
  Client, ClosureFunction, QueuedCall, EventTy, no_event, plain_event, polymorphic_event,
  closure_called, event_received, check_thread_id, call_user, write,
}
use cercall.Client.Sending.{broadcast_func_name, enqueue_closure}

-- What an archive gives, or the exception that it throws.
abbrev pub or_throw : {A : Type 0} → Option (A × Bytes) → Outcome A
or_throw none = throws archive_error
or_throw (some (a, rest)) = ok a

abbrev pub archive_of : {A : Type 0} → Option A → Outcome A
archive_of none = throws archive_error
archive_of (some a) = ok a

module _ {lib : Archive} (S : Serialization lib) (type_name : String) (max_calls : ℕ)
    (event_type : EventTy lib) where
  -- The call of a `ClosureFunction` on an archive.
  unfoldable pub call_closure : ClosureFunction lib → Bytes → Exec (Client lib) (Unit {0})
  call_closure cl arRes = do
    result ← lift (or_throw (S.deserialize_result cl.result_type arRes))
    call_user lib (closure_called cl.closure cl.result_type result)

  -- The action that `send_call` has queued: it drops the error of its write.
  unfoldable pub run_queued : String → QueuedCall lib → Exec (Client lib) (Unit {0})
  unfolding write enqueue_closure
  run_queued fullMetName call = do
    err ← write lib call.msg
    enqueue_closure S type_name max_calls fullMetName call.closure_function

  abbrev pub set_call_queue : Map String (List (QueuedCall lib)) → Client lib → Client lib
  set_call_queue q c = record c { call_queue = q }

  unfoldable pub dequeue_next : String → Exec (Client lib) (Unit {0})
  unfolding dequeue_call run_queued
  dequeue_next funcName = do
    queued ← gets (λ c. is_enqueued (max_calls - 1) funcName c.call_queue)
    if queued
        then dequeue_call (λ c. c.call_queue) set_call_queue (run_queued funcName) funcName
        else pure tt

  unfoldable pub deliver_result :
      String → ClosureFunction lib → Bytes → Exec (Client lib) (Unit {0})
  deliver_result funcName closure res = do
    modify (λ c. record c { closures = erase funcName c.closures })
    dequeue_next funcName
    call_closure closure res

  unfoldable pub deliver_found :
      String → Bytes → Option (ClosureFunction lib) → Exec (Client lib) (Unit {0})
  deliver_found funcName res none =
      throw (runtime_error "cercall::Client: closure not found for function result")
  deliver_found funcName res (some closure) = deliver_result funcName closure res

  unfoldable pub dispatch_result : String → Bytes → Exec (Client lib) (Unit {0})
  unfolding deliver_found deliver_result dequeue_next call_closure
  dispatch_result funcName res = do
    found ← gets (λ c. lookup funcName c.closures)
    deliver_found funcName res found

  -- Every listener of a plain event is given the event; of a polymorphic event the first listener
  -- takes the pointer, and the others are given what is left of it.
  unfoldable pub plain_events : (t : lib.Ty) → lib.Val t → List ℕ → Exec (Client lib) (Unit {0})
  plain_events t ev [] = pure tt
  plain_events t ev (l ∷ listeners) =
      call_user lib (event_received l t (some ev)) >> plain_events t ev listeners

  unfoldable pub moved_events :
      (t : lib.Ty) → Option (lib.Val t) → List ℕ → Exec (Client lib) (Unit {0})
  moved_events t ev [] = pure tt
  moved_events t ev (l ∷ listeners) =
      call_user lib (event_received l t ev) >> moved_events t none listeners

  unfoldable pub dispatch_event : EventTy lib → Bytes → Exec (Client lib) (Unit {0})
  unfolding plain_events moved_events
  dispatch_event no_event arEv = pure tt
  dispatch_event (plain_event t) arEv = do
    ev ← lift (or_throw (S.deserialize_event t arEv))
    listeners ← gets (λ c. c.event_listeners)
    plain_events t ev listeners
  dispatch_event (polymorphic_event t) arEv = do
    ev ← lift (or_throw (S.deserialize_event t arEv))
    listeners ← gets (λ c. c.event_listeners)
    moved_events t (some ev) listeners

  unfoldable pub dispatch : String × Bytes → Exec (Client lib) (Unit {0})
  dispatch (funcName, ar) =
      if funcName == broadcast_func_name S type_name max_calls
      then dispatch_event event_type ar
      else dispatch_result funcName ar

  -- The handler of `make_message_handler`.
  unfoldable pub handle_message : Bytes → Exec (Client lib) (Unit {0})
  unfolding dispatch dispatch_event dispatch_result
  handle_message msg = do
    archives ← gets (λ c. c.archives)
    call ← lift (archive_of (S.deserialize_call archives msg))
    dispatch call

  -- The messenger is a part of the client, which a handler does not destroy.
  abbrev pub client_channel : Channel (Client lib)
  client_channel = record {
    messenger = λ c. c.messenger;
    set_messenger = λ m c. record c { messenger = m };
    transport = λ c. c.transport;
    set_transport = λ t c. record c { transport = t };
    alive = λ c. true;
    handle = handle_message;
  }

  unfoldable pub on_incoming_data : ℕ → Exec (Client lib) ℕ
  on_incoming_data dataLenInBuffer = do
    check_thread_id lib "cercall::Client::on_incoming_data"
    read client_channel dataLenInBuffer

  unfoldable pub dispatch_error_to_closure :
      Bytes → ClosureFunction lib → Exec (Client lib) (Unit {0})
  unfolding call_closure
  dispatch_error_to_closure errorMsg cl = do
    archives ← gets (λ c. c.archives)
    (name, arRes) ← lift (archive_of (S.deserialize_call archives errorMsg))
    call_closure cl arRes

  unfoldable pub dispatch_errors :
      Bytes → Map String (ClosureFunction lib) → Exec (Client lib) (Unit {0})
  unfolding dispatch_error_to_closure
  dispatch_errors errCallResMsg [] = pure tt
  dispatch_errors errCallResMsg ((name, cl) ∷ closures) =
      (if not (name == "") then dispatch_error_to_closure errCallResMsg cl else pure tt)
      >> dispatch_errors errCallResMsg closures

  unfoldable pub dispatch_connection_error : Error → Exec (Client lib) (Unit {0})
  unfolding dispatch_errors
  dispatch_connection_error e = do
    archives ← gets (λ c. c.archives)
    closures ← gets (λ c. c.closures)
    dispatch_errors
        (strip_header (S.serialize_call_result archives "placeholder" void (failed lib void e)))
        closures
    modify (λ c. record c { closures = [] })

  unfoldable pub on_connection_error : Error → Exec (Client lib) (Unit {0})
  unfolding check_thread_id dispatch_connection_error
  on_connection_error e = do
    check_thread_id lib "cercall::Client::on_connection_error"
    dispatch_connection_error e
