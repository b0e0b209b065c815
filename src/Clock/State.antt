-- ===== src/Clock/State.antt =====
-- The state of examples/cerclock/clockservice.cpp and clockservice.h, and its calls of timers.
-- A timer is the network library's: a wait on it completes once, as a step of its own, with an error
-- code that the library chooses. The model records which waits are outstanding, and whether the
-- timer has been cancelled, set anew or destroyed since.
use cercall.Base.{
  ℕ, Bool, true, false, Option, none, some, String, List, [], ◌∷◌, ◌++◌, nat_beq, ◌||◌,
  if◌then◌else◌,
}
use cercall.Base.Exec.{Exec, ok, undefined}
use cercall.Base.Int.{ℤ, pos}
use cercall.Error.{no_error}
use cercall.Result.{Result, of_value}
use cercall.Archive.{Archive, Arg}
use cercall.FunctionDict.{FuncDict}
use cercall.Service.{Service, new_service}

-- `Alarm`, at the address that the handler of its timer captures.
pub record Alarm : Type 0 where
  pub address : ℕ
  pub id : ℕ
  pub tag : String
  pub expires : ℤ

-- What waits on a timer: the handler of an alarm, or `tickTimer`.
pub data Handler : Type 0 where
  alarm_handler : ℕ → Handler
  tick_handler : Handler

abbrev pub same_handler : Handler → Handler → Bool
same_handler (alarm_handler p) (alarm_handler q) = nat_beq p q
same_handler tick_handler tick_handler = true
same_handler _ _ = false

-- An outstanding wait, and whether its timer has been cancelled since.
pub record Wait : Type 0 where
  pub handler : Handler
  pub cancelled : Bool

-- `cancel()` of the timer on which a handler waits; its `expires_at`, `expires_from_now` and
-- destructor cancel too.
abbrev pub cancel : Handler → List Wait → List Wait
cancel h [] = []
cancel h (w ∷ ws) = record w { cancelled = same_handler h w.handler || w.cancelled } ∷ cancel h ws

abbrev pub async_wait : Handler → List Wait → List Wait
async_wait h ws = ws ++ record { handler = h; cancelled = false } ∷ []

-- The events of clockinterface.h, by their class. A time is a number of nanoseconds.
pub data ClockEvent : Type 0 where
  alarm_event : ℕ → String → ClockEvent
  tick_event : ℤ → ClockEvent

-- The types of the interface, as the archive knows them.
pub record ClockTypes (lib : Archive) : Type 0 where
  pub time_point : lib.Ty
  pub of_time : ℤ → lib.Val time_point
  pub milliseconds : lib.Ty
  pub of_milliseconds : ℤ → lib.Val milliseconds
  pub duration : lib.Ty
  pub of_duration : ℤ → lib.Val duration
  pub text : lib.Ty
  pub of_text : String → lib.Val text
  pub alarm_id : lib.Ty
  pub of_alarm_id : ℕ → lib.Val alarm_id
  pub int : lib.Ty
  pub of_int : ℤ → lib.Val int
  pub event : lib.Ty
  pub of_event : ClockEvent → lib.Val event

abbrev pub event_arg : {lib : Archive} → ClockTypes lib → ClockEvent → Arg lib
event_arg types ev = (types.event, types.of_event ev)

module _ (lib : Archive) where
  -- `next_alarm_id` is a static variable, `work` is whether `iosWork` keeps the loop of events alive,
  -- and `stopped` whether that loop has been stopped.
  pub record ClockService : Type 0 where
    pub service : Service lib
    pub alarms : List Alarm
    pub tick_expiry : ℤ
    pub tick_interval : ℤ
    pub waits : List Wait
    pub next_alarm_id : ℕ
    pub work : Bool
    pub stopped : Bool

  -- The clock as `main` has made it, with the functions of its interface in the dictionary.
  unfoldable pub new_clock : ℕ → FuncDict lib → ClockService
  new_clock thread dict = record {
    service = new_service lib thread dict;
    alarms = [];
    tick_expiry = pos 0;
    tick_interval = pos 0;
    waits = [];
    next_alarm_id = 1;
    work = true;
    stopped = false;
  }

  -- An operation of the base class.
  abbrev pub on_service : {A : Type 0} → Exec (Service lib) A → Exec ClockService A
  on_service m c = let (o, s) = m c.service in (o, record c { service = s })

  -- `Closure<T>`, and a call of it with a value.
  abbrev pub Closure : Type 0 → Type 0
  Closure A = Result A → Exec ClockService (Unit {0})

  abbrev pub give : {A : Type 0} → Closure A → A → Exec ClockService (Unit {0})
  give closure a = closure (of_value a no_error)

  -- `find_alarm`, `none` for `end()`.
  unfoldable pub find_alarm : ℕ → List Alarm → Option Alarm
  find_alarm alarmId [] = none
  find_alarm alarmId (a ∷ alarms) =
      if nat_beq a.id alarmId then some a else find_alarm alarmId alarms

  -- The alarm at an address, `none` if it has been destroyed.
  unfoldable pub alarm_at : ℕ → List Alarm → Option Alarm
  alarm_at p [] = none
  alarm_at p (a ∷ alarms) = if nat_beq a.address p then some a else alarm_at p alarms

  -- `erase` of the alarm at an address.
  unfoldable pub erase_alarm : ℕ → List Alarm → List Alarm
  erase_alarm p [] = []
  erase_alarm p (a ∷ alarms) = if nat_beq a.address p then alarms else a ∷ erase_alarm p alarms

  unfoldable pub found_alarm : Option Alarm → Exec ClockService Alarm
  found_alarm none c = (undefined, c)
  found_alarm (some a) c = (ok a, c)

  -- A read of the alarm that a handler has captured by reference.
  unfoldable pub the_alarm : ℕ → Exec ClockService Alarm
  unfolding found_alarm
  the_alarm p c = found_alarm (alarm_at p c.alarms) c
