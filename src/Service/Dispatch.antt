-- ===== src/Service/Dispatch.antt =====
-- What include/cercall/service.h does with a call: dispatching it, and sending its result.
use Prim.Native.String.{◌++◌ as append_text}
use cercall.Base.{
  ℕ, Bool, true, false, not, ◌&&◌, Option, none, some, String, List, [], ◌∷◌, ◌++◌, lookup, nat_eq,
  nat_beq, string_eq, ◌==◌, if◌then◌else◌,
}
use cercall.Base.Exec.{
  Outcome, ok, throws, Exception, logic_error, runtime_error, length_error, archive_error, Exec,
  pure, throw, lift, gets, modify, o_assert, ◌>>=◌, ◌>>◌,
}
use cercall.Error.{System, operation_in_progress}
use cercall.Result.{Result}
use cercall.Archive.{Archive, Bytes, ResultTy, ResultVal, void}
use cercall.Serialization.{Serialization, failed}
use cercall.FunctionDict.{call_function, is_one_way}
use cercall.Service.State.{Service, write, is_client, archives_of}

-- `e.what()`; that of an exception of the serialization library is its own, and left out.
abbrev pub what : Exception → String
what (logic_error s) = s
what (runtime_error s) = s
what (length_error s) = s
what archive_error = ""

-- `find_pending_call`, and the erasure of the call that it finds.
unfoldable pub find_pending_call : String → ℕ → List (String × ℕ) → Bool
find_pending_call funcName client [] = false
find_pending_call funcName client ((f, p) ∷ calls) =
    if (f == funcName) && (p == client) then true else find_pending_call funcName client calls

unfoldable pub erase_pending_call : String → ℕ → List (String × ℕ) → List (String × ℕ)
erase_pending_call funcName client [] = []
erase_pending_call funcName client ((f, p) ∷ calls) =
    if (f == funcName) && (p == client)
    then calls
    else (f, p) ∷ erase_pending_call funcName client calls

-- A `try` block whose handler throws another exception.
abbrev pub rethrow : {S A : Type 0} → (Exception → Exception) → Outcome A × S → Outcome A × S
rethrow f (throws x, s) = (throws (f x), s)
rethrow f (o, s) = (o, s)

module _ {lib : Archive} (S : Serialization lib) (sys : System) where
  -- The call is pending and its client may be gone: a message is written, or a warning logged.
  unfoldable pub send_result : ℕ → String → Bytes → Exec (Service lib) (Unit {0})
  unfolding write
  send_result client funcName resultMsg = do
    own ← gets (λ s. nat_beq s.caller s.thread_id)
    o_assert own
    found ← gets (λ s. find_pending_call funcName client s.pending_calls)
    if found
        then pure tt
        else throw (
            runtime_error (
              append_text "cercall::Service::send_result: method results already delivered for "
                funcName))
    present ← gets (is_client lib client)
    (if present then write lib client resultMsg >>= (λ e. pure tt) else pure tt)
    modify (λ s. record s { pending_calls = erase_pending_call funcName client s.pending_calls })

  -- The closure of a call, called with a result. It holds a pointer to the output archive of the
  -- client, which is null unless the archives are reusable, and is gone with the client.
  unfoldable pub result_message :
      ℕ → String → (r : ResultTy lib) → Result (ResultVal lib r) → Exec (Service lib) Bytes
  result_message client funcName r res = do
    cs ← gets (λ s. lookup client s.clients)
    archives ← lift (if S.reusable_archive then archives_of lib cs else ok false)
    pure (S.serialize_call_result archives funcName r res)

  unfoldable pub call_closure :
      ℕ → String → (r : ResultTy lib) → Result (ResultVal lib r) → Exec (Service lib) (Unit {0})
  unfolding result_message send_result
  call_closure client funcName r res = do
    resMsg ← result_message client funcName r res
    send_result client funcName resMsg

  unfoldable pub call_closures :
      ℕ
      → String
      → (r : ResultTy lib) → List (Result (ResultVal lib r))
      → Exec (Service lib) (Unit {0})
  unfolding call_closure
  call_closures client funcName r [] = pure tt
  call_closures client funcName r (res ∷ results) =
      call_closure client funcName r res >> call_closures client funcName r results

  unfoldable pub thrown_by : Option String → Exec (Service lib) (Unit {0})
  thrown_by none = pure tt
  thrown_by (some message) = throw (runtime_error message)

  -- The body of the `try` block.
  unfoldable pub call_service : ℕ → String → Bytes → Exec (Service lib) (Unit {0})
  unfolding call_closures thrown_by
  call_service client funcName args = do
    dict ← gets (λ s. s.func_dict)
    (r, behaviour) ← lift (call_function S funcName args dict)
    call_closures client funcName r behaviour.results
    thrown_by behaviour.thrown

  unfoldable pub call_failed : String → Exception → Exception
  call_failed funcName e = runtime_error (
      append_text "cercall::Service::dispatch_func: failed to call cercall function "
        (append_text funcName (append_text ": " (what e))))

  unfoldable pub refuse_call : ℕ → String → Exec (Service lib) (Unit {0})
  unfolding write
  refuse_call client funcName = do
    cs ← gets (λ s. lookup client s.clients)
    archives ← lift (archives_of lib cs)
    e ← write lib client (
        S.serialize_call_result archives funcName void
          (failed lib void (operation_in_progress sys)))
    pure tt

  unfoldable pub accept_call : Bool → ℕ → String → Bytes → Exec (Service lib) (Unit {0})
  unfolding call_service call_failed
  accept_call isOneWay client funcName args = do
    modify (λ s. record s {
      pending_calls =
          if isOneWay then s.pending_calls else s.pending_calls ++ (funcName, client) ∷ [];
    })
    (λ s. rethrow (call_failed funcName) (call_service client funcName args s))

  unfoldable pub dispatch_func : ℕ → String → Bytes → Exec (Service lib) (Unit {0})
  unfolding refuse_call accept_call
  dispatch_func client funcName args = do
    dict ← gets (λ s. s.func_dict)
    isOneWay ← lift (is_one_way S funcName dict)
    isPreviousCallPending ←
        gets (λ s. not isOneWay && find_pending_call funcName client s.pending_calls)
    if isPreviousCallPending
        then refuse_call client funcName
        else accept_call isOneWay client funcName args
