-- ===== src/Client/Sending.antt =====
-- The calls of include/cercall/client.h: `send_call` in its two forms.
use Prim.Native.String.{◌++◌ as append_text}
use cercall.Base.{
  ℕ, ◌-◌, Option, none, some, String, List, lookup, insert, string_eq, if◌then◌else◌,
}
use cercall.Base.Exec.{runtime_error, Exec, pure, throw, gets, modify, ◌>>=◌, ◌>>◌}
use cercall.Error.{is_error}
use cercall.Archive.{Archive, Bytes, Arg}
use cercall.Serialization.{Serialization, failed}
use cercall.Transport.{is_open}
use cercall.CallQueue.{can_enqueue, enqueue_call}
use cercall.Client.State.{
  Client, ClosureFunction, closure_called, check_thread_id, call_user, write,
}

-- What the templates are made for: the interface's name, and `MaxCallsInProgress`.
module _ {lib : Archive} (S : Serialization lib) (type_name : String) (max_calls : ℕ) where
  -- `myFuncPrefix`, `myBroadcastFuncName`
  abbrev pub func_prefix : String
  func_prefix = append_text type_name "::"

  abbrev pub broadcast_func_name : String
  broadcast_func_name = append_text type_name "::broadcast_event"

  abbrev pub full_func_name : String → String
  full_func_name funcName = append_text func_prefix funcName

  pub call_message : String → List (Arg lib) → Exec (Client lib) (String × Bytes)
  call_message funcName args = do
    check_thread_id lib "cercall::Client::prepare_call_message()"
    archives ← gets (λ c. c.archives)
    pure (full_func_name funcName, S.serialize_call archives (full_func_name funcName) args)

  unfoldable pub prepare_call_message : String → List (Arg lib) → Exec (Client lib) (String × Bytes)
  unfolding call_message check_thread_id
  prepare_call_message funcName args = do
    opened ← gets (λ c. is_open c.transport)
    if opened
        then call_message funcName args
        else throw
            (runtime_error "cercall::Client::prepare_call_message: transport to service not opened")

  unfoldable pub enqueue_closure : String → ClosureFunction lib → Exec (Client lib) (Unit {0})
  enqueue_closure funcName cl = modify (λ c. record c { closures = insert funcName cl c.closures })

  -- The call that finds no other in progress.
  unfoldable pub start_call : String → Bytes → ClosureFunction lib → Exec (Client lib) (Unit {0})
  unfolding write enqueue_closure
  start_call fullFuncName msg cl = do
    err ← write lib msg
    if is_error err
        then call_user lib
            (closure_called cl.closure cl.result_type (failed lib cl.result_type err))
        else enqueue_closure fullFuncName cl

  unfoldable pub queue_call : String → Bytes → ClosureFunction lib → Exec (Client lib) (Unit {0})
  queue_call fullFuncName msg cl = do
    allowed ← gets (λ c. can_enqueue (max_calls - 1) fullFuncName c.call_queue)
    if allowed
        then modify (λ c. record c {
          call_queue =
              enqueue_call fullFuncName (record { msg = msg; closure_function = cl }) c.call_queue;
        })
        else throw (
            runtime_error
              "cercall::Client::send_call: the limit of queueing function calls is exceeded")

  unfoldable pub start_or_queue :
      String
      → Bytes
      → ClosureFunction lib
      → Option (ClosureFunction lib)
      → Exec (Client lib) (Unit {0})
  start_or_queue fullFuncName msg cl none = start_call fullFuncName msg cl
  start_or_queue fullFuncName msg cl (some other) = queue_call fullFuncName msg cl

  unfoldable pub send_call :
      String → ClosureFunction lib → List (Arg lib) → Exec (Client lib) (Unit {0})
  unfolding prepare_call_message start_call queue_call start_or_queue
  send_call funcName cl args = do
    (fullFuncName, msg) ← prepare_call_message funcName args
    pending ← gets (λ c. lookup fullFuncName c.closures)
    start_or_queue fullFuncName msg cl pending

  -- The overload for one-way calls drops the error of the write.
  unfoldable pub send_one_way_call : String → List (Arg lib) → Exec (Client lib) (Unit {0})
  unfolding prepare_call_message write
  send_one_way_call funcName args = do
    (fullFuncName, msg) ← prepare_call_message funcName args
    err ← write lib msg
    pure tt
