-- ===== src/Service/Twice.antt =====
-- A closure of include/cercall/service.h that is called a second time.
use Prim.Native.String.{◌++◌ as append_text}
use cercall.Base.{
  ℕ, ◌-◌, ◌≤◌, ◌≡◌, refl, true, false, some, String, lookup, nat_eq, nat_beq, length, arith,
}
use cercall.Base.Exec.{throws, runtime_error, ◌>>◌}
use cercall.Error.{System}
use cercall.Result.{Result}
use cercall.Archive.{Archive, Bytes, ResultTy, ResultVal}
use cercall.Serialization.{Serialization}
use cercall.Messenger.{size_max}
use cercall.Transport.{Transport}
use cercall.Service.State.{Service, ClientState}
use cercall.Service.Dispatch.{find_pending_call, erase_pending_call, send_result, call_closure}
use cercall.Service.Answers.{
  IsReady, sent_to, result_body, result_message-current, call_closure-sent,
}
use cercall.Service.Pending.{
  times_pending, find_pending_call-zero, find_pending_call-one, erase_pending-done,
}

abbrev pub already_delivered : String → String
already_delivered f =
    append_text "cercall::Service::send_result: method results already delivered for " f

module _ {lib : Archive} (S : Serialization lib) (sys : System) where
  send_result-late :
      (p : ℕ) (f : String) (msg : Bytes) (s : Service lib)
      → nat_beq s.caller s.thread_id ≡ true
      → find_pending_call f p s.pending_calls ≡ false
      → send_result S sys p f msg s ≡ (throws (runtime_error (already_delivered f)), s)
  unfolding send_result
  send_result-late p f msg s own late = rw (own, late) refl

  call_closure-late :
      (p : ℕ) (cs : ClientState) (f : String) (r : ResultTy lib) (res : Result (ResultVal lib r))
      (s : Service lib)
      → nat_beq s.caller s.thread_id ≡ true
      → find_pending_call f p s.pending_calls ≡ false
      → lookup p s.clients ≡ some cs
      → cs.archives ≡ S.reusable_archive
      → call_closure S sys p f r res s ≡ (throws (runtime_error (already_delivered f)), s)
  unfolding call_closure
  call_closure-late p cs f r res s own late client same =
      rw (result_message-current S sys p cs f r res s client same)
        (send_result-late p f _ s own late)

  -- The closure of a call that is pending once, called twice by the service's thread, while the
  -- call's client is connected, with archives if the serialization reuses them, and its socket takes
  -- the message of the first result, which is not too long: the first result is sent and the call is
  -- pending no more, and the second call of the closure throws, sends nothing and changes nothing.
  pub call_closure-twice :
      (p : ℕ) (cs : ClientState) (t : Transport) (f : String) (r : ResultTy lib)
      (first second : Result (ResultVal lib r)) (s : Service lib)
      → nat_beq s.caller s.thread_id ≡ true
      → times_pending f p s.pending_calls ≡ 1
      → lookup p s.clients ≡ some cs
      → cs.archives ≡ S.reusable_archive
      → IsReady s p t
      → length (result_body S sys f r first) ≤ size_max - 8
      → (call_closure S sys p f r first >> call_closure S sys p f r second) s ≡ (
        throws (runtime_error (already_delivered f)),
        record (sent_to p t (result_body S sys f r first) s) {
          pending_calls = erase_pending_call f p s.pending_calls;
        },
      )
  call_closure-twice p cs t f r first second s own once client same ready small =
      let pending = find_pending_call-one f p s.pending_calls once in
      rw (call_closure-sent S sys p cs t f r first s own pending client same ready small) (
        call_closure-late p cs f r second
          (record (sent_to p t (result_body S sys f r first) s) {
            pending_calls = erase_pending_call f p s.pending_calls;
          })
          own
          (find_pending_call-zero f p _
            (omega (arith, erase_pending-done f p s.pending_calls pending, once)))
          client same)
