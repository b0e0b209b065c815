-- ===== src/Service/Answers.antt =====
-- How the service of include/cercall/service.h answers a call.
use cercall.Base.{
  ℕ, ◌-◌, ◌≤◌, ◌≡◌, refl, true, false, none, some, String, List, [], ◌∷◌, ◌++◌, lookup, insert,
  string_eq, nat_eq, nat_beq, ==_refl, length, Bool-cases, inl, inr, arith,
}
use cercall.Base.Exec.{ok}
use cercall.Error.{no_error, System, operation_in_progress}
use cercall.Result.{Result}
use cercall.Archive.{Archive, Bytes, ResultTy, ResultVal, void}
use cercall.Serialization.{Serialization, failed, HasHeader}
use cercall.Messenger.{strip_header, size_max, size_bytes, write_message_with_header_sent}
use cercall.Transport.{Transport, opened}
use cercall.FunctionDict.{call_function, is_one_way}
use cercall.Service.State.{Service, ClientState, on_transport, notify_closed, write}
use cercall.Service.Dispatch.{
  find_pending_call, erase_pending_call, send_result, result_message, call_closure, call_closures,
  thrown_by, call_service, refuse_call, accept_call, dispatch_func,
}

-- A message that the header can describe goes to an open transport whose socket takes it.
pub record IsReady {lib : Archive} (s : Service lib) (p : ℕ) (t : Transport) : Type 0 where
  pub found : lookup p s.transports ≡ some t
  pub is_opened : t.state ≡ opened
  pub taken : t.write_results ≡ []

module _ {lib : Archive} where
  -- The service after it has sent a message to a client.
  abbrev pub sent_to : ℕ → Transport → Bytes → Service lib → Service lib
  sent_to p t body s = record s {
    transports =
        insert p (record t { sent = t.sent ++ (size_bytes (length body) ++ body) ∷ [] })
          s.transports;
  }

  pub write-sent :
      (p : ℕ) (t : Transport) (msg : Bytes) (s : Service lib)
      → IsReady s p t
      → HasHeader msg
      → length (strip_header msg) ≤ size_max - 8
      → write lib p msg s ≡ (ok no_error, sent_to p t (strip_header msg) s)
  unfolding write on_transport notify_closed
  write-sent p t msg s ready h small = rw h (
      rw ready.found (
        rw (write_message_with_header_sent (strip_header msg) t small ready.is_opened ready.taken)
          refl))

pub find_added :
    (f : String) (p : ℕ) (calls : List (String × ℕ))
    → find_pending_call f p (calls ++ (f, p) ∷ []) ≡ true
unfolding find_pending_call
find_added f p [] = rw (==_refl f, ==_refl p) refl
find_added f p ((g, q) ∷ calls) = ground (arith, find_added f p calls)

pub erase_added :
    (f : String) (p : ℕ) (calls : List (String × ℕ))
    → find_pending_call f p calls ≡ false
    → erase_pending_call f p (calls ++ (f, p) ∷ []) ≡ calls
unfolding erase_pending_call find_pending_call
erase_added f p [] h = rw (==_refl f, ==_refl p) refl
erase_added f p ((g, q) ∷ calls) h = ground (arith, erase_added f p calls)

module _ {lib : Archive} (S : Serialization lib) (sys : System) where
  abbrev pub result_body : String → (r : ResultTy lib) → Result (ResultVal lib r) → Bytes
  result_body f r res = strip_header (S.serialize_call_result S.reusable_archive f r res)

  send_result-sent :
      (p : ℕ) (cs : ClientState) (t : Transport) (f : String) (msg : Bytes) (s : Service lib)
      → nat_beq s.caller s.thread_id ≡ true
      → find_pending_call f p s.pending_calls ≡ true
      → lookup p s.clients ≡ some cs
      → IsReady s p t
      → HasHeader msg
      → length (strip_header msg) ≤ size_max - 8
      → send_result S sys p f msg s ≡ (
        ok tt,
        record (sent_to p t (strip_header msg) s) {
          pending_calls = erase_pending_call f p s.pending_calls;
        },
      )
  unfolding send_result lookup insert erase_pending_call
  send_result-sent p cs t f msg s own pending client ready h small =
      rw (own, pending) (rw client (rw (write-sent p t msg s ready h small) refl))

  pub result_message-current :
      (p : ℕ) (cs : ClientState) (f : String) (r : ResultTy lib) (res : Result (ResultVal lib r))
      (s : Service lib)
      → lookup p s.clients ≡ some cs
      → cs.archives ≡ S.reusable_archive
      → result_message S sys p f r res s
        ≡ (ok (S.serialize_call_result S.reusable_archive f r res), s)
  unfolding result_message
  result_message-current p cs f r res s client same = elim (Bool-cases S.reusable_archive) [
    | inl e ↦ rw e (rw (client, same, e) refl)
    | inr e ↦ rw e refl
  ]

  -- The closure of a pending call, called with a result by the service's thread, while the
  -- call's client is connected, with archives if the serialization reuses them, and its socket
  -- takes the message, which is not too long: the message of the result is sent to that client,
  -- and the call is taken from the pending ones.
  pub call_closure-sent :
      (p : ℕ) (cs : ClientState) (t : Transport) (f : String) (r : ResultTy lib)
      (res : Result (ResultVal lib r)) (s : Service lib)
      → nat_beq s.caller s.thread_id ≡ true
      → find_pending_call f p s.pending_calls ≡ true
      → lookup p s.clients ≡ some cs
      → cs.archives ≡ S.reusable_archive
      → IsReady s p t
      → length (result_body f r res) ≤ size_max - 8
      → call_closure S sys p f r res s ≡ (
        ok tt,
        record (sent_to p t (result_body f r res) s) {
          pending_calls = erase_pending_call f p s.pending_calls;
        },
      )
  unfolding call_closure
  call_closure-sent p cs t f r res s own pending client same ready small =
      rw (result_message-current p cs f r res s client same) (
        send_result-sent p cs t f _ s own pending client ready
          (S.serialize_call_result-HasHeader S.reusable_archive f r res) small)

  call_service-sent :
      (p : ℕ) (cs : ClientState) (t : Transport) (f : String) (args : Bytes) (r : ResultTy lib)
      (res : Result (ResultVal lib r)) (s : Service lib)
      → nat_beq s.caller s.thread_id ≡ true
      → find_pending_call f p s.pending_calls ≡ true
      → lookup p s.clients ≡ some cs
      → cs.archives ≡ S.reusable_archive
      → IsReady s p t
      → length (result_body f r res) ≤ size_max - 8
      → call_function S f args s.func_dict ≡ ok (r, record { results = res ∷ []; thrown = none })
      → call_service S sys p f args s ≡ (
        ok tt,
        record (sent_to p t (result_body f r res) s) {
          pending_calls = erase_pending_call f p s.pending_calls;
        },
      )
  unfolding call_service call_closures thrown_by
  call_service-sent p cs t f args r res s own pending client same ready small called =
      rw called (rw (call_closure-sent p cs t f r res s own pending client same ready small) refl)

  -- A call of a function that is not one-way and gives one result at once: the message of the
  -- result is sent to the client that called, and the pending calls are what they were. The call
  -- is made by the service's thread, for a connected client, with archives if the serialization
  -- reuses them, with no call of this function pending, whose socket takes the message, which is
  -- not too long.
  pub dispatch_func-answered :
      (p : ℕ) (cs : ClientState) (t : Transport) (f : String) (args : Bytes) (r : ResultTy lib)
      (res : Result (ResultVal lib r)) (s : Service lib)
      → nat_beq s.caller s.thread_id ≡ true
      → find_pending_call f p s.pending_calls ≡ false
      → lookup p s.clients ≡ some cs
      → cs.archives ≡ S.reusable_archive
      → IsReady s p t
      → length (result_body f r res) ≤ size_max - 8
      → is_one_way S f s.func_dict ≡ ok false
      → call_function S f args s.func_dict ≡ ok (r, record { results = res ∷ []; thrown = none })
      → dispatch_func S sys p f args s ≡ (ok tt, sent_to p t (result_body f r res) s)
  unfolding dispatch_func accept_call
  dispatch_func-answered p cs t f args r res s own idle client same ready small one_way called =
      rw one_way (
        rw idle (
          rw
            (call_service-sent p cs t f args r res
              (record s { pending_calls = s.pending_calls ++ (f, p) ∷ [] }) own
              (find_added f p s.pending_calls) client same
              (record { found = ready.found; is_opened = ready.is_opened; taken = ready.taken })
              small called)
            (rw (erase_added f p s.pending_calls idle) refl)))

  -- A call of a function that is not one-way, of which the client has a call pending: the
  -- function is not called, and the client is sent the error that an operation is in progress;
  -- nothing else changes. The client is connected, with archives if the serialization reuses
  -- them, and its socket takes the message, which is not too long.
  pub dispatch_func-refused :
      (p : ℕ) (cs : ClientState) (t : Transport) (f : String) (args : Bytes) (s : Service lib)
      → find_pending_call f p s.pending_calls ≡ true
      → lookup p s.clients ≡ some cs
      → cs.archives ≡ S.reusable_archive
      → IsReady s p t
      → length (result_body f void (failed lib void (operation_in_progress sys))) ≤ size_max - 8
      → is_one_way S f s.func_dict ≡ ok false
      → dispatch_func S sys p f args s
        ≡ (ok tt, sent_to p t (result_body f void (failed lib void (operation_in_progress sys))) s)
  unfolding dispatch_func refuse_call
  dispatch_func-refused p cs t f args s busy client same ready small one_way = rw one_way (
      rw busy (
        rw (client, same)
          (rw
            (write-sent p t _ s ready
              (S.serialize_call_result-HasHeader S.reusable_archive f void
                (failed lib void (operation_in_progress sys)))
              small)
            refl)))
