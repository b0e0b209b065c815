-- ===== src/Clock/Client.antt =====
-- examples/cerclock/clockclient.h, and the program of clockclient.cpp that uses it: its closures, its
-- listener of events, and what `main` does before it runs the loop of events.
-- What the program prints is left out.
use cercall.Base.{
  ℕ, Bool, true, false, not, Option, none, some, String, List, [], ◌∷◌, nat_beq, if◌then◌else◌, ◌≡◌,
  refl, ◌≤◌, ◌-◌, length, lookup, string_eq, insert, ◌*◌, Bool-cases, inl, inr,
}
use cercall.Base.Exec.{
  Exec, ok, undefined, runtime_error, pure, throw, lift, gets, modify, ◌>>=◌, ◌>>◌,
}
use cercall.Base.Int.{ℤ, pos}
use cercall.Error.{ErrorCode, is_error, no_error}
use cercall.Result.{Result, is_ok, of_value}
use cercall.Archive.{Archive, Arg, ResultTy, void, value}
use cercall.Serialization.{Serialization}
use cercall.Client
use cercall.Client.{Client, ClosureFunction, polymorphic_event, full_func_name}
use cercall.Client.Calls.{after_sending, call_body, send_call-sent}
use cercall.Transport.{opened}
use cercall.Messenger.{size_max}
use cercall.Clock.State.{ClockTypes, ClockEvent, alarm_event, tick_event}
use cercall.Clock.Functions.{interface_name}

-- The closures of the program, by the function that they are given to, and its listener.
abbrev pub time_closure : ℕ
time_closure = 1

abbrev pub alarm_closure : ℕ
alarm_closure = 2

abbrev pub tick_closure : ℕ
tick_closure = 3

abbrev pub close_closure : ℕ
close_closure = 4

abbrev pub clock_listener : ℕ
clock_listener = 5

-- `MaxCallsInProgress` by default.
abbrev pub max_calls : ℕ
max_calls = 1

module _ {lib : Archive} (S : Serialization lib) (types : ClockTypes lib) where
  send_call : String → ℕ → ResultTy lib → List (Arg lib) → Exec (Client lib) (Unit {0})
  send_call name closure r args =
      Client.send_call S interface_name max_calls name
        (record { closure = closure; result_type = r }) args

  -- `ClockClient`
  unfoldable pub call_get_time : ℕ → Exec (Client lib) (Unit {0})
  unfolding send_call
  call_get_time closure = send_call "get_time" closure (value types.time_point) []

  unfoldable pub call_set_tick_interval : ℤ → ℕ → Exec (Client lib) (Unit {0})
  unfolding send_call
  call_set_tick_interval tickInterval closure =
      send_call "set_tick_interval" closure void
        ((types.milliseconds, types.of_milliseconds tickInterval) ∷ [])

  unfoldable pub call_set_alarm : String → ℤ → ℕ → Exec (Client lib) (Unit {0})
  unfolding send_call
  call_set_alarm tag after closure =
      send_call "set_alarm" closure (value types.alarm_id)
        ((types.text, types.of_text tag) ∷ (types.duration, types.of_duration after) ∷ [])

  unfoldable pub call_cancel_alarm : ℕ → ℕ → Exec (Client lib) (Unit {0})
  unfolding send_call
  call_cancel_alarm alarm closure =
      send_call "cancel_alarm" closure void ((types.alarm_id, types.of_alarm_id alarm) ∷ [])

  unfoldable pub call_close_service : String → ℕ → Exec (Client lib) (Unit {0})
  unfolding send_call
  call_close_service reason closure =
      send_call "close_service" closure (value types.int) ((types.text, types.of_text reason) ∷ [])

module _ (lib : Archive) where
  -- The state of the program.
  pub record ClockProgram : Type 0 where
    pub client : Client lib
    pub stop_alarm : ℕ
    pub work : Bool
    pub stopped : Bool

  abbrev pub on_client : {A : Type 0} → Exec (Client lib) A → Exec ClockProgram A
  on_client m p = let (o, c) = m p.client in (o, record p { client = c })

  unfoldable pub finish : Exec ClockProgram (Unit {0})
  finish = modify (λ p. record p { work = false; stopped = true })

  -- The closures that the program gives. That of `close_service` prints the error or the value.
  unfoldable pub time_given : Result ℤ → Exec ClockProgram (Unit {0})
  time_given res = if not (is_ok res) then throw (runtime_error res.error.message) else pure tt

  unfoldable pub stop_alarm_set : Result ℕ → Exec ClockProgram (Unit {0})
  stop_alarm_set result =
      if is_error result.error
      then throw (runtime_error result.error.message)
      else modify (λ p. record p { stop_alarm = result.value })

  unfoldable pub clock_tick_set : Result (Unit {0}) → Exec ClockProgram (Unit {0})
  clock_tick_set result =
      if is_error result.error then throw (runtime_error result.error.message) else pure tt

  unfoldable pub service_closed : Result ℤ → Exec ClockProgram (Unit {0})
  unfolding finish
  service_closed result = finish

module _ {lib : Archive} (S : Serialization lib) (types : ClockTypes lib) where
  -- `on_service_event` of the listener; `none` is a null pointer, which it reads through.
  unfoldable pub on_service_event : Option ClockEvent → Exec (ClockProgram lib) (Unit {0})
  on_service_event none = lift undefined
  on_service_event (some (alarm_event id tag)) = do
    stopAlarm ← gets (λ p. p.stop_alarm)
    if nat_beq id stopAlarm
        then on_client lib (call_close_service S types "client closed" close_closure)
        else pure tt
  on_service_event (some (tick_event time)) = pure tt

  unfoldable pub get_time : Exec (ClockProgram lib) (Unit {0})
  get_time = on_client lib (call_get_time S types time_closure)

  unfoldable pub set_stop_alarm : ℤ → Exec (ClockProgram lib) (Unit {0})
  set_stop_alarm after = on_client lib (call_set_alarm S types "stopClient" after alarm_closure)

  -- What `set_clock_tick` posts to the loop of events.
  unfoldable pub set_clock_tick : ℤ → Exec (ClockProgram lib) (Unit {0})
  set_clock_tick interval = on_client lib (call_set_tick_interval S types interval tick_closure)

  abbrev pub seconds : ℕ → ℤ
  seconds n = pos (n * 1000000000)

  -- `main` up to the loop of events, for the result of resolving and connecting: its exit code if it
  -- leaves. What it posts runs in the loop.
  unfoldable pub start_program : Option ErrorCode → Exec (ClockProgram lib) (Option ℕ)
  unfolding get_time set_stop_alarm
  start_program resolved = do
    modify (λ p. record p {
      client =
          Client.add_listener S interface_name max_calls (polymorphic_event types.event)
            clock_listener p.client;
    })
    connected ←
        on_client lib
          (Client.open_client S interface_name max_calls (polymorphic_event types.event) resolved)
    if not connected then pure (some 1) else (do
      modify (λ p. record p { work = true })
      get_time
      set_stop_alarm (seconds 10)
      pure none)

  -- The client after it has asked the service to close.
  abbrev pub after_close : Client lib → Client lib
  after_close c =
      record (after_sending
        (call_body S interface_name max_calls "close_service"
          ((types.text, types.of_text "client closed") ∷ []) c)
        c) {
          closures =
              insert (full_func_name S interface_name max_calls "close_service")
                (record { closure = close_closure; result_type = value types.int }) c.closures;
        }

  -- The result of `set_alarm` has arrived, and then an event of an alarm, before any other step of the
  -- program: the program asks the service to close if the event is of the alarm that it has set, and
  -- does nothing if it is of any other. It is the client's thread that calls, the connection is open,
  -- its socket takes the message, which is not too long, and no call of `close_service` is in progress.
  pub stop_alarm-closes :
      (id set : ℕ) (tag : String) (p : ClockProgram lib)
      → nat_beq p.client.caller p.client.thread_id ≡ true
      → p.client.transport.state ≡ opened
      → p.client.transport.write_results ≡ []
      → lookup (full_func_name S interface_name max_calls "close_service") p.client.closures ≡ none
      → length (
          call_body S interface_name max_calls "close_service"
            ((types.text, types.of_text "client closed") ∷ [])
            p.client)
        ≤ size_max - 8
      → (stop_alarm_set lib (of_value set no_error) >> on_service_event (some (alarm_event id tag)))
          p
        ≡ (
          ok tt,
          record p {
            stop_alarm = set;
            client = if nat_beq id set then after_close p.client else p.client;
          },
        )
  unfolding stop_alarm_set on_service_event call_close_service of_value
  stop_alarm-closes id set tag p own o w idle small = elim (Bool-cases (nat_beq id set)) [
    | inl e ↦ rw e (
        rw
          (send_call-sent S interface_name max_calls "close_service" _ _ p.client own o w idle
            small)
          refl)
    | inr e ↦ rw e refl
  ]
