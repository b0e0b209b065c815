-- ===== src/Clock/Calls.antt =====
-- A client's call of a function of examples/cerclock/clockservice.cpp, from its dispatch by the base
-- class of include/cercall/service.h to its answer.
use cercall.Base.{
  ℕ, ◌+◌, List, insert, ◌-◌, ◌≤◌, ◌≡◌, refl, ◌∙◌, Bool, true, false, none, some, String, [], ◌∷◌,
  ◌++◌, lookup, nat_eq, nat_beq, length,
}
use cercall.Base.Exec.{ok}
use cercall.Base.Int.{ℤ, ◌+ℤ◌}
use cercall.Error.{System, no_error}
use cercall.Result.{Result, of_value}
use cercall.Archive.{Archive, Bytes, Arg, ResultTy, ResultVal, value}
use cercall.Serialization.{Serialization}
use cercall.Messenger.{size_max, strip_header}
use cercall.Transport.{Transport}
use cercall.FunctionDict.{
  DictEntry, FuncDict, find, add_function, result_type_traits, read_args, call_func, call,
  call_function, is_one_way,
}
use cercall.Service.{
  Service, ClientState, new_service, add_functions, check_thread_id, find_pending_call,
  dispatch_func, accept_call, call_service, call_closures, thrown_by, call_closure,
}
use cercall.Service.Answers.{
  IsReady, sent_to, result_body, find_added, erase_added, call_closure-sent,
}
use cercall.Clock.State.{alarm_handler, async_wait, ClockTypes, ClockService}
use cercall.FunctionDict.Calls.{deserialize_args-args_image}
use cercall.TypeUtil.{last_type_of, remove_last_type_of}
use cercall.Clock.Dispatch.{ClockArgs, clock_functions, new_clock_service, dispatch_clock}
use cercall.Clock.Functions.{set_alarm, clock_function, u32}

abbrev pub set_alarm_name : String
set_alarm_name = clock_function "set_alarm"

module _ {lib : Archive} (S : Serialization lib) (sys : System) where
  -- The function gives no result at once: its call is left pending.
  dispatch_func-pending :
      (p : ℕ) (f : String) (args : Bytes) (r : ResultTy lib) (s : Service lib)
      → find_pending_call f p s.pending_calls ≡ false
      → is_one_way S f s.func_dict ≡ ok false
      → call_function S f args s.func_dict ≡ ok (r, record { results = []; thrown = none })
      → dispatch_func S sys p f args s
        ≡ (ok tt, record s { pending_calls = s.pending_calls ++ (f, p) ∷ [] })
  unfolding dispatch_func accept_call call_service call_closures thrown_by
  dispatch_func-pending p f args r s idle one_way called = rw one_way (rw idle (rw called refl))

  -- The closure of a call that has just been dispatched.
  call_closure-dispatched :
      (p : ℕ) (cs : ClientState) (t : Transport) (f : String) (r : ResultTy lib)
      (res : Result (ResultVal lib r)) (s : Service lib)
      → nat_beq s.caller s.thread_id ≡ true
      → find_pending_call f p s.pending_calls ≡ false
      → lookup p s.clients ≡ some cs
      → cs.archives ≡ S.reusable_archive
      → IsReady s p t
      → length (result_body S sys f r res) ≤ size_max - 8
      → call_closure S sys p f r res (record s { pending_calls = s.pending_calls ++ (f, p) ∷ [] })
        ≡ (ok tt, sent_to p t (result_body S sys f r res) s)
  call_closure-dispatched p cs t f r res s own idle client same ready small =
      call_closure-sent S sys p cs t f r res
        (record s { pending_calls = s.pending_calls ++ (f, p) ∷ [] }) own
        (find_added f p s.pending_calls) client same
        (record { found = ready.found; is_opened = ready.is_opened; taken = ready.taken }) small
      ∙ rw (erase_added f p s.pending_calls idle) refl

module _ {lib : Archive} (S : Serialization lib) (sys : System) (types : ClockTypes lib)
    (values : ClockArgs types) where
  abbrev pub alarm_answer : ℕ → Bytes
  alarm_answer id =
      result_body S sys set_alarm_name (value types.alarm_id)
        (of_value (types.of_alarm_id id) no_error)

  -- The arguments of a call of `set_alarm`, and how its archive is read on from.
  abbrev pub alarm_args : String → ℤ → List (Arg lib)
  alarm_args tag after =
      (types.text, types.of_text tag) ∷ (types.duration, types.of_duration after) ∷ []

  abbrev pub clock_dictionary : ℕ → ℤ → ℤ → FuncDict lib
  clock_dictionary p system_now now =
      (new_clock_service S sys types values 0
        (clock_functions S sys types values p system_now now)).func_dict

  abbrev alarm_entry : DictEntry lib
  alarm_entry = record {
    func = record {
      one_way = false;
      result_type = value types.alarm_id;
      args_tuple = types.text ∷ types.duration ∷ [];
      func = λ args. record { results = []; thrown = none };
    };
    one_way = false;
  }

  find-set_alarm :
      (p : ℕ) (system_now now : ℤ)
      → find lib set_alarm_name (clock_dictionary p system_now now) ≡ ok alarm_entry
  unfolding new_clock_service clock_functions add_functions add_function result_type_traits find
      lookup insert new_service check_thread_id last_type_of remove_last_type_of
  find-set_alarm p system_now now = refl

  is_one_way-set_alarm :
      (p : ℕ) (system_now now : ℤ)
      → is_one_way S set_alarm_name (clock_dictionary p system_now now) ≡ ok false
  unfolding is_one_way
  is_one_way-set_alarm p system_now now = rw (find-set_alarm p system_now now) refl

  abbrev alarm_archive : Bool → String → ℤ → Bytes
  alarm_archive reused tag after = S.args_image (alarm_args tag after) ++ S.tail reused

  call_function-set_alarm :
      (p : ℕ) (system_now now : ℤ) (reused : Bool) (tag : String) (after : ℤ)
      → call_function S set_alarm_name
          (alarm_archive reused tag after)
          (clock_dictionary p system_now now)
        ≡ ok (value types.alarm_id, record { results = []; thrown = none })
  unfolding call_function call call_func
  call_function-set_alarm p system_now now reused tag after =
      rw (find-set_alarm p system_now now)
        (rw (deserialize_args-args_image S (alarm_args tag after) [] (S.tail reused)) refl)

  read_args-set_alarm :
      (p : ℕ) (system_now now : ℤ) (reused : Bool) (tag : String) (after : ℤ)
      → read_args S set_alarm_name
          (alarm_archive reused tag after)
          (clock_dictionary p system_now now)
        ≡ ok (alarm_args tag after)
  unfolding read_args
  read_args-set_alarm p system_now now reused tag after =
      rw (find-set_alarm p system_now now)
        (rw (deserialize_args-args_image S (alarm_args tag after) [] (S.tail reused)) refl)

  -- The clock once the body of `set_alarm` has run.
  abbrev pub with_alarm : ℕ → Transport → ℕ → String → ℤ → ClockService lib → ClockService lib
  with_alarm client t p tag expires c = record c {
    service = sent_to client t (alarm_answer c.next_alarm_id) c.service;
    alarms =
        c.alarms ++ record { address = p; id = c.next_alarm_id; tag = tag; expires = expires } ∷ [];
    waits = async_wait (alarm_handler p) c.waits;
    next_alarm_id = u32 (c.next_alarm_id + 1);
  }

  -- A client calls `set_alarm` with a tag and a duration, and the clock, whose dictionary the
  -- constructor has filled, dispatches the message of the call: it is read as the function's name
  -- and an archive, an alarm with the next id, this tag and this duration from now is added at the
  -- end of the list, its timer's wait is started, the id after it, in 32 bits, becomes the next one,
  -- the client is sent the message of the alarm's id as the result, no call is left pending that was
  -- not before, and nothing else changes. The call is made by the service's thread, for a connected
  -- client, with archives if the serialization reuses them, with no call of `set_alarm` pending,
  -- whose socket takes the message, which is not too long.
  pub set_alarm-answered :
      (client : ℕ) (cs : ClientState) (t : Transport) (reused : Bool) (p : ℕ) (system_now now : ℤ)
      (tag : String) (after : ℤ) (c : ClockService lib)
      → nat_beq c.service.caller c.service.thread_id ≡ true
      → find_pending_call set_alarm_name client c.service.pending_calls ≡ false
      → lookup client c.service.clients ≡ some cs
      → cs.archives ≡ S.reusable_archive
      → IsReady c.service client t
      → length (alarm_answer c.next_alarm_id) ≤ size_max - 8
      → c.service.func_dict ≡ clock_dictionary p system_now now
      → (archive : Bytes) × (S.deserialize_call reused
            (strip_header (S.serialize_call reused set_alarm_name (alarm_args tag after)))
          ≡ some (set_alarm_name, archive))
        × (dispatch_clock S sys types values p system_now now client set_alarm_name archive c
            ≡ (ok tt, with_alarm client t p tag (now +ℤ after) c))
  unfolding dispatch_clock set_alarm of_value clock_functions
  set_alarm-answered client cs t reused p system_now now tag after c own idle found same ready small
        dict =
      let archive = alarm_archive reused tag after in
      let one_way = is_one_way-set_alarm p system_now now in
      let called = call_function-set_alarm p system_now now reused tag after in
      let read : read_args S set_alarm_name archive c.service.func_dict
          ≡ ok (alarm_args tag after) =
        rw dict (read_args-set_alarm p system_now now reused tag after) in
      (
        archive,
        S.deserialize_call-serialize_call reused set_alarm_name (alarm_args tag after),
        rw
            (
              idle,
              dispatch_func-pending S sys client set_alarm_name archive (value types.alarm_id)
                  c.service idle (rw dict one_way) (rw dict called),
              read,
            )
            (rw
              (
                values.as_text-of tag,
                values.as_duration-of after,
                call_closure-dispatched S sys client cs t set_alarm_name (value types.alarm_id)
                    (of_value (types.of_alarm_id c.next_alarm_id) no_error) c.service own idle found
                    same ready small,
              )
              refl),
      )
