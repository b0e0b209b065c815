-- ===== src/Clock/Functions.antt =====
-- The functions that examples/cerclock/clockservice.cpp serves. Each is called with a closure for
-- its result; the closures of a call answer it, as include/cercall/service.h makes them.
use Prim.Native.String.{◌++◌ as append_text}
use cercall.Base.{
  ℕ, ◌+◌, ◌*◌, ◌-◌, ◌%◌, ◌^◌, Bool, true, false, none, some, Option, String, [], ◌∷◌, ◌++◌,
  if◌then◌else◌, not,
}
use cercall.Base.Exec.{Exec, pure, gets, modify, ◌>>=◌, ◌>>◌}
use cercall.Base.Int.{ℤ, pos, negsuc, is_zero, ◌+ℤ◌}
use cercall.Error.{System}
use cercall.Archive.{Archive, void, value}
use cercall.Serialization.{Serialization}
use cercall.Service.{call_closure}
use cercall.Clock.State.{
  Alarm, alarm_handler, tick_handler, cancel, async_wait, ClockService, Closure, give, find_alarm,
  on_service,
}

-- `ClockAlarmId` is `uint32_t`.
abbrev pub u32 : ℕ → ℕ
u32 n = n % 2 ^ 32

-- A number of milliseconds in nanoseconds.
unfoldable pub nanoseconds : ℤ → ℤ
nanoseconds (pos n) = pos (n * 1000000)
nanoseconds (negsuc n) = negsuc ((n + 1) * 1000000 - 1)

module _ {lib : Archive} where
  -- `get_time`, at the time `now` of the system's clock.
  unfoldable pub get_time : ℤ → Closure lib ℤ → Exec (ClockService lib) (Unit {0})
  get_time now cl = give lib cl now

  unfoldable pub set_interval : ℤ → Exec (ClockService lib) (Unit {0})
  set_interval tickInterval =
      modify (λ c. record c { tick_interval = tickInterval; waits = cancel tick_handler c.waits })

  unfoldable pub start_ticks : ℤ → ℤ → Exec (ClockService lib) (Unit {0})
  start_ticks now tickInterval =
      if not (is_zero tickInterval)
      then modify (λ c. record c {
        tick_expiry = now +ℤ nanoseconds tickInterval;
        waits = async_wait tick_handler (cancel tick_handler c.waits);
      })
      else pure tt

  -- `set_tick_interval`, at the time `now` of the steady clock.
  unfoldable pub set_tick_interval :
      ℤ → ℤ → Closure lib (Unit {0}) → Exec (ClockService lib) (Unit {0})
  unfolding set_interval start_ticks
  set_tick_interval now tickInterval cl = do
    set_interval tickInterval
    start_ticks now tickInterval
    give lib cl tt

  -- `set_alarm`; the new alarm is made at the address `p`.
  unfoldable pub set_alarm : ℕ → ℤ → String → ℤ → Closure lib ℕ → Exec (ClockService lib) (Unit {0})
  set_alarm p now tag after cl = do
    alarmId ← gets (λ c. c.next_alarm_id)
    modify (λ c. record c {
      next_alarm_id = u32 (alarmId + 1);
      alarms =
          c.alarms ++ record { address = p; id = alarmId; tag = tag; expires = now +ℤ after } ∷ [];
      waits = async_wait (alarm_handler p) c.waits;
    })
    give lib cl alarmId

  unfoldable pub cancel_found : Option Alarm → Exec (ClockService lib) (Unit {0})
  cancel_found none = pure tt
  cancel_found (some a) =
      modify (λ c. record c { waits = cancel (alarm_handler a.address) c.waits })

  unfoldable pub cancel_alarm : ℕ → Closure lib (Unit {0}) → Exec (ClockService lib) (Unit {0})
  unfolding cancel_found
  cancel_alarm alarm cl = do
    found ← gets (λ c. find_alarm lib alarm c.alarms)
    cancel_found found
    give lib cl tt

  -- The reason is printed.
  unfoldable pub close_service : String → Closure lib ℤ → Exec (ClockService lib) (Unit {0})
  close_service reason cl = do
    modify (λ c. record c { work = false; stopped = true })
    give lib cl (pos 0)

  -- `signal_handler`, for a number of a signal that is SIGINT or SIGTERM, or is not.
  unfoldable pub signal_handler : Bool → ClockService lib → ClockService lib
  signal_handler terminates c = if terminates then record c { work = false; stopped = true } else c

abbrev pub interface_name : String
interface_name = "ClockInterface"

abbrev pub clock_function : String → String
clock_function name = append_text (append_text interface_name "::") name

module _ {lib : Archive} (S : Serialization lib) (sys : System) where
  -- The closures that answer a call of a client.
  abbrev pub answer_void : ℕ → String → Closure lib (Unit {0})
  answer_void client name res =
      on_service lib (call_closure S sys client (clock_function name) void res)

  abbrev pub answer : {A : Type 0} → ℕ → String → (t : lib.Ty) → (A → lib.Val t) → Closure lib A
  answer client name t of_a res = on_service lib (
      call_closure S sys client (clock_function name) (value t)
        (record { value = of_a res.value; error = res.error }))
