-- ===== src/Rpc.antt =====
-- A call from a client of include/cercall/client.h to a service of include/cercall/service.h, and
-- its result on the way back. What one side's socket takes the other side's messenger hands over,
-- message by message: that is the subject of Messenger/Delivery.antt, and left out here.
use cercall.Base.{
  ℕ, ◌-◌, ◌≤◌, ◌≡◌, refl, subst, ◌∙◌, true, false, none, some, String, List, [], ◌∷◌, ◌++◌, map,
  lookup, insert, erase, lookup-insert_self, string_eq, nat_eq, nat_beq, ◌==◌, length,
}
use cercall.Base.Exec.{ok, o_assert}
use cercall.Error.{System}
use cercall.Result.{Result}
use cercall.Archive.{Archive, Bytes, Arg, arg_type, ResultTy, ResultVal, received}
use cercall.Serialization.{Serialization}
use cercall.Messenger.{size_max, strip_header}
use cercall.Transport.{Transport, opened}
use cercall.CallQueue.Fifo.{waiting}
use cercall.FunctionDict.{Behaviour, FuncDict, add_function, is_one_way, call_function}
use cercall.FunctionDict.Calls.{params_of, call_function-add_function}
use cercall.Client
use cercall.Client.{
  Client, ClosureFunction, EventTy, closure_called, full_func_name, broadcast_func_name, send_call,
}
use cercall.Client.Calls.{after_sending, call_body, send_call-sent}
use cercall.Client.Answers.{handle_message-answer}
use cercall.Service
use cercall.Service.{Service, ClientState, find_pending_call}
use cercall.Service.Answers.{IsReady, sent_to, result_body, dispatch_func-answered}

module _ {lib : Archive} (S : Serialization lib) (sys : System) (type_name : String) where
  -- The message of a call, as the service gets it: it is answered at once by a function that gives
  -- one result at once.
  handle_call :
      (p : ℕ) (cs : ClientState) (t : Transport) (f : String) (msg args : Bytes) (r : ResultTy lib)
      (res : Result (ResultVal lib r)) (s : Service lib)
      → nat_beq s.caller s.thread_id ≡ true
      → find_pending_call f p s.pending_calls ≡ false
      → lookup p s.clients ≡ some cs
      → cs.archives ≡ S.reusable_archive
      → IsReady s p t
      → length (result_body S sys f r res) ≤ size_max - 8
      → is_one_way S f s.func_dict ≡ ok false
      → call_function S f args s.func_dict ≡ ok (r, record { results = res ∷ []; thrown = none })
      → S.deserialize_call S.reusable_archive msg ≡ some (f, args)
      → Service.handle_message S sys type_name p msg s
        ≡ (ok tt, sent_to p t (result_body S sys f r res) s)
  unfolding Service.handle_message
  handle_call p cs t f msg args r res s own idle client same ready small one_way called read =
      rw (client, o_assert)
        (rw (client, same)
          (rw read (
            dispatch_func-answered S sys p cs t f args r res s own idle client same ready small
              one_way called)))

module _ {lib : Archive} (S : Serialization lib) (type_name : String) (max_calls : ℕ) where
  -- The client can call a function at once: the caller is its thread, its connection is open, its
  -- socket takes the message, and no call of the function is in progress or waits.
  pub record CanCall (f : String) (args : List (Arg lib)) (c : Client lib) : Type 0 where
    pub own : nat_beq c.caller c.thread_id ≡ true
    pub same : c.archives ≡ S.reusable_archive
    pub is_opened : c.transport.state ≡ opened
    pub taken : c.transport.write_results ≡ []
    pub idle : lookup (full_func_name S type_name max_calls f) c.closures ≡ none
    pub none_wait : waiting (full_func_name S type_name max_calls f) c.call_queue ≡ []
    pub small : length (call_body S type_name max_calls f args c) ≤ size_max - 8
    pub not_event :
        (full_func_name S type_name max_calls f == broadcast_func_name S type_name max_calls)
        ≡ false

-- The service can answer a call of a client: the caller is its thread, the client is connected, its
-- socket takes the message, and it has no call of the function pending.
pub record CanAnswer {lib : Archive} (S : Serialization lib) (p : ℕ) (t : Transport) (f : String)
    (s : Service lib) : Type 0 where
  pub state : ClientState
  pub own : nat_beq s.caller s.thread_id ≡ true
  pub idle : find_pending_call f p s.pending_calls ≡ false
  pub client : lookup p s.clients ≡ some state
  pub same : state.archives ≡ S.reusable_archive
  pub ready : IsReady s p t

module _ {lib : Archive} (S : Serialization lib) (sys : System) (type_name : String) (max_calls : ℕ)
    (event_type : EventTy lib) where
  -- A remote call, from the caller's side to the callee's and back. A client that can call a function
  -- sends the message of the call; a service that can answer it, and to whose dictionary the function
  -- was added under that name with parameters of the types of the arguments and a closure for a result
  -- of type `r`, calls it with these arguments and, if it gives one result at once, whose message
  -- is not too long, sends that message; and when the client gets that message, the closure of
  -- the call is called once with the result as it passes through the archive. Afterwards the client has
  -- no call of the function in progress, and the service has no more calls pending than before.
  pub send_call-answered :
      (k : ℕ) (r : ResultTy lib) (args : List (Arg lib)) (f : String) (c : Client lib) (p : ℕ)
      (t : Transport) (s : Service lib)
      (function : (r' : ResultTy lib) → List (Arg lib) → Behaviour lib r') (dict : FuncDict lib)
      (res : Result (ResultVal lib r))
      → CanCall S type_name max_calls f args c
      → CanAnswer S p t (full_func_name S type_name max_calls f) s
      → add_function lib false
          (full_func_name S type_name max_calls f)
          (params_of lib false r (map (arg_type lib) args))
          function
          dict
        ≡ some s.func_dict
      → function r args ≡ record { results = res ∷ []; thrown = none }
      → length (result_body S sys (full_func_name S type_name max_calls f) r res) ≤ size_max - 8
      → let full = full_func_name S type_name max_calls f in
        let cl : ClosureFunction lib = record { closure = k; result_type = r } in
        let call = call_body S type_name max_calls f args c in
        let reply = result_body S sys full r res in
        let called : Client lib = record (after_sending call c) {
          closures = insert full cl c.closures;
        } in
        (send_call S type_name max_calls f cl args c ≡ (ok tt, called))
        × (Service.handle_message S sys type_name p call s ≡ (ok tt, sent_to p t reply s))
        × (Client.handle_message S type_name max_calls event_type reply called ≡ (
          ok tt,
          record called {
            closures = erase full called.closures;
            calls = c.calls ++ closure_called k r (received lib r res) ∷ [];
          },
        ))
  send_call-answered k r args f c p t s function dict res can answer added gives small =
      let full = full_func_name S type_name max_calls f in
      let cl : ClosureFunction lib = record { closure = k; result_type = r } in
      let call = call_body S type_name max_calls f args c in
      let called : Client lib = record (after_sending call c) {
        closures = insert full cl c.closures;
      } in
      let answered : Client lib = record called {
        closures = erase full called.closures;
        calls = c.calls ++ closure_called k r (received lib r res) ∷ [];
      } in
      let (dict', archive, added', two_way, read, calls, others) =
        call_function-add_function S false c.archives full r args function dict in
      let same_dict : dict' ≡ s.func_dict = cc in
      (
        send_call-sent S type_name max_calls f cl args c can.own can.is_opened can.taken can.idle
            can.small,
        handle_call S sys type_name p answer.state t full call archive r res s answer.own
            answer.idle answer.client answer.same answer.ready small (rw⁻¹ same_dict two_way)
            (rw⁻¹ same_dict (calls ∙ rw gives refl))
            (subst (λ b. S.deserialize_call b call ≡ some (full, archive)) can.same read),
        subst
            (λ b.
              Client.handle_message S type_name max_calls event_type
                (strip_header (S.serialize_call_result b full r res)) called
              ≡ (ok tt, answered))
            can.same
            (handle_message-answer S type_name max_calls event_type full cl res called
              (lookup-insert_self full cl c.closures) can.not_event can.none_wait),
      )
