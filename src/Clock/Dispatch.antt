-- ===== src/Clock/Dispatch.antt =====
-- How a call of a client reaches the functions of examples/cerclock/clockservice.cpp: the dictionary
-- that the service's constructor fills, and the body of a function, which runs on the clock's state
-- with the arguments that the dictionary's entry has read.
use cercall.Base.{
  ℕ, false, Option, none, some, String, List, [], ◌∷◌, ◌≡◌, ◌==◌, string_eq, map, if◌then◌else◌,
}
use cercall.Base.Exec.{Outcome, ok, undefined, Exec, pure, lift, gets, ◌>>=◌, ◌>>◌}
use cercall.Base.Int.{ℤ}
use cercall.Error.{System}
use cercall.Archive.{Archive, Bytes, Arg, void, value}
use cercall.Serialization.{Serialization}
use cercall.FunctionDict.{ParamTy, plain, closure, read_args}
use cercall.Service.{
  MemberFunction, Service, new_service, add_functions, dispatch_func, find_pending_call, rethrow,
  call_failed,
}
use cercall.Clock.State.{ClockTypes, ClockService, on_service}
use cercall.Clock.Functions.{
  get_time, set_tick_interval, set_alarm, cancel_alarm, close_service, answer, answer_void,
  interface_name, clock_function,
}

-- The C++ value of an argument, `none` if the argument has another type, which C++ rules out.
pub record ClockArgs {lib : Archive} (types : ClockTypes lib) : Type 0 where
  pub as_milliseconds : Arg lib → Option ℤ
  pub as_duration : Arg lib → Option ℤ
  pub as_text : Arg lib → Option String
  pub as_alarm_id : Arg lib → Option ℕ
  pub as_duration-of : (d : ℤ) → as_duration (types.duration, types.of_duration d) ≡ some d
  pub as_text-of : (s : String) → as_text (types.text, types.of_text s) ≡ some s

module _ {lib : Archive} (S : Serialization lib) (sys : System) (types : ClockTypes lib)
    (values : ClockArgs types) where
  -- A function of the interface: its parameters, and its body for a client and arguments.
  pub record ClockFunction : Type 0 where
    pub name : String
    pub params : List (ParamTy lib)
    pub body : ℕ → List (Arg lib) → Exec (ClockService lib) (Unit {0})

  abbrev taken : {A : Type 0} → Option A → List (Arg lib) → Outcome (A × List (Arg lib))
  taken none args = undefined
  taken (some v) args = ok (v, args)

  -- The next argument of a body, and the ones behind it.
  abbrev next_arg :
      {A : Type 0} → (Arg lib → Option A) → List (Arg lib) → Outcome (A × List (Arg lib))
  next_arg get [] = undefined
  next_arg get (a ∷ args) = taken (get a) args

  -- What the constructor adds to the dictionary, for calls at the times `system_now` and `now` of the
  -- two clocks; an alarm is made at the address `p`.
  unfoldable pub clock_functions : ℕ → ℤ → ℤ → List ClockFunction
  clock_functions p system_now now =
      record {
        name = "get_time";
        params = closure (value types.time_point) ∷ [];
        body = λ client args.
            get_time system_now (answer S sys client "get_time" types.time_point types.of_time);
      }
      ∷ record {
        name = "set_tick_interval";
        params = plain types.milliseconds ∷ closure void ∷ [];
        body = λ client args. do
          (interval, _) ← lift (next_arg values.as_milliseconds args)
          set_tick_interval now interval (answer_void S sys client "set_tick_interval");
      }
      ∷ record {
        name = "set_alarm";
        params = plain types.text ∷ plain types.duration ∷ closure (value types.alarm_id) ∷ [];
        body = λ client args. do
          (tag, others) ← lift (next_arg values.as_text args)
          (after, _) ← lift (next_arg values.as_duration others)
          set_alarm p now tag after
              (answer S sys client "set_alarm" types.alarm_id types.of_alarm_id);
      }
      ∷ record {
        name = "cancel_alarm";
        params = plain types.alarm_id ∷ closure void ∷ [];
        body = λ client args. do
          (alarm, _) ← lift (next_arg values.as_alarm_id args)
          cancel_alarm alarm (answer_void S sys client "cancel_alarm");
      }
      ∷ record {
        name = "close_service";
        params = plain types.text ∷ closure (value types.int) ∷ [];
        body = λ client args. do
          (reason, _) ← lift (next_arg values.as_text args)
          close_service reason (answer S sys client "close_service" types.int types.of_int);
      }
      ∷ []

  -- The entry of a function reads its arguments and leaves its call pending; the body gives the
  -- result.
  abbrev member : ClockFunction → MemberFunction S sys interface_name
  member f = record {
    name = f.name;
    params = f.params;
    function = λ r args. record { results = []; thrown = none };
  }

  -- The service after the constructor, made by the thread `thread`.
  unfoldable pub new_clock_service : ℕ → List ClockFunction → Service lib
  new_clock_service thread functions =
      (add_functions S sys interface_name false (map member functions)
        (new_service lib thread [])).1

  body_of : String → List ClockFunction → ℕ → List (Arg lib) → Exec (ClockService lib) (Unit {0})
  body_of funcName [] client args = pure tt
  body_of funcName (f ∷ functions) client args =
      let later = body_of funcName functions client args in
      if clock_function f.name == funcName then f.body client args else later

  -- A call of a client, from its archive to the end of the function's body; a call that is refused,
  -- since the last one has no result yet, runs no body.
  unfoldable pub dispatch_clock :
      ℕ → ℤ → ℤ → ℕ → String → Bytes → Exec (ClockService lib) (Unit {0})
  unfolding body_of
  dispatch_clock p system_now now client funcName archive = do
    refused ← gets (λ c. find_pending_call funcName client c.service.pending_calls)
    dict ← gets (λ c. c.service.func_dict)
    on_service lib (dispatch_func S sys client funcName archive)
    args ← lift (if refused then ok [] else read_args S funcName archive dict)
    if refused then pure tt else (λ c.
        rethrow (call_failed S sys funcName)
          (body_of funcName (clock_functions p system_now now) client args c))
