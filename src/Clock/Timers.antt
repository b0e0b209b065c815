-- ===== src/Clock/Timers.antt =====
-- The handlers of the timers of examples/cerclock/clockservice.cpp.
use cercall.Base.{ℕ, Bool, not, none, some, Option, if◌then◌else◌}
use cercall.Base.Exec.{Exec, aborts, pure, lift, gets, modify, ◌>>=◌, ◌>>◌}
use cercall.Base.Int.{ℤ, is_zero, ◌+ℤ◌}
use cercall.Error.{System, ErrorCode}
use cercall.Transport.{operation_aborted, error_code_beq}
use cercall.Archive.{Archive}
use cercall.Serialization.{Serialization}
use cercall.Service.{broadcast_event}
use cercall.Clock.State.{
  Alarm, Handler, alarm_handler, tick_handler, cancel, async_wait, ClockTypes, ClockEvent,
  alarm_event, tick_event, event_arg, ClockService, find_alarm, erase_alarm, the_alarm, on_service,
}
use cercall.Clock.Functions.{nanoseconds, interface_name}

-- `ec != asio::error::operation_aborted`
abbrev pub not_aborted : System → ErrorCode → Bool
not_aborted sys ec = not (error_code_beq ec (operation_aborted sys))

module _ {lib : Archive} (S : Serialization lib) (sys : System) (types : ClockTypes lib) where
  unfoldable pub broadcast_clock_event : ClockEvent → Exec (ClockService lib) (Unit {0})
  broadcast_clock_event ev =
      on_service lib (broadcast_event S sys interface_name (event_arg types ev))

  -- The next tick is one interval after the last.
  unfoldable pub rearm : Exec (ClockService lib) (Unit {0})
  rearm = do
    interval ← gets (λ c. c.tick_interval)
    if not (is_zero interval)
        then modify (λ c. record c {
          tick_expiry = c.tick_expiry +ℤ nanoseconds interval;
          waits = async_wait tick_handler (cancel tick_handler c.waits);
        })
        else pure tt

  -- `tickTimer`, at the time `now` of the system's clock.
  unfoldable pub tick_timer : ℤ → ErrorCode → Exec (ClockService lib) (Unit {0})
  unfolding rearm
  tick_timer now ec =
      if not_aborted sys ec then broadcast_clock_event (tick_event now) >> rearm else pure tt

  unfoldable pub broadcast_alarm : ℕ → Exec (ClockService lib) (Unit {0})
  broadcast_alarm p = do
    theAlarm ← the_alarm lib p
    broadcast_clock_event (alarm_event theAlarm.id theAlarm.tag)

  unfoldable pub purge_found : Option Alarm → Exec (ClockService lib) (Unit {0})
  purge_found none = lift aborts
  purge_found (some a) = modify (λ c. record c {
    alarms = erase_alarm lib a.address c.alarms;
    waits = cancel (alarm_handler a.address) c.waits;
  })

  unfoldable pub purge_alarm : ℕ → Exec (ClockService lib) (Unit {0})
  unfolding purge_found
  purge_alarm p = do
    theAlarm ← the_alarm lib p
    it ← gets (λ c. find_alarm lib theAlarm.id c.alarms)
    purge_found it

  -- The handler that `set_alarm` has given to the timer of the alarm at the address `p`.
  unfoldable pub alarm_expired : ℕ → ErrorCode → Exec (ClockService lib) (Unit {0})
  unfolding broadcast_alarm purge_alarm
  alarm_expired p ec = do (if not_aborted sys ec then broadcast_alarm p else pure tt); purge_alarm p

  unfoldable pub run_handler : ℤ → Handler → ErrorCode → Exec (ClockService lib) (Unit {0})
  unfolding tick_timer alarm_expired
  run_handler now (alarm_handler p) ec = alarm_expired p ec
  run_handler now tick_handler ec = tick_timer now ec
