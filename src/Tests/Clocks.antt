-- ===== src/Tests/Clocks.antt =====
-- examples/cerclock
use cercall.Base.{
  ℕ, ◌≡◌, refl, true, false, some, String, [], ◌∷◌, lookup, insert, nat_eq, if◌then◌else◌, arith,
}
use cercall.Base.Exec.{ok, undefined, ◌>>◌}
use cercall.Base.Int.{pos, pos_part, is_zero, ◌+ℤ◌}
use cercall.Error.{ErrorCode}
use cercall.Cereal
use cercall.Cereal.RoundTrip.{cereal}
use cercall.Cereal.Types.{save_result}
use cercall.Messenger.{write_message_with_header, fill_header}
use cercall.Result.{of_value}
use cercall.Service.{
  write as service_write, check_thread_id, call_closure, Service, broadcast_event,
  find_pending_call,
}
use cercall.Transport.{operation_aborted, write}
use cercall.Clock.{
  Alarm, Wait, alarm_handler, ClockTypes, ClockService, ClockEvent, alarm_event, tick_event,
  event_arg, set_alarm, set_tick_interval, answer, answer_void, alarm_at, find_alarm, alarm_expired,
  interface_name,
}
use cercall.Clock.Alarms.{live_ticks}
use cercall.Clock.Steps.{IsNew, Reach, here, next, sets_alarm, sets_interval}
use cercall.Clock.Sound.{SoundAt, purged}
use cercall.Clock.Reachable.{Reach-SoundAt}
use cercall.Clock.Expiry.{alarm_expired-cancelled, alarm_expired-fired, alarm_expired-same_id}
use cercall.Clock.Ticks.{Reach-IsTicking}
use cercall.Tests.Codec.{numbers}
use cercall.Tests.Setup.{plain_cereal, linux, service, success}

abbrev pub event_number : ClockEvent → ℕ
event_number (alarm_event id tag) = id
event_number (tick_event time) = pos_part time

abbrev pub types : ClockTypes numbers
types = record {
  time_point = tt;
  of_time = pos_part;
  milliseconds = tt;
  of_milliseconds = pos_part;
  duration = tt;
  of_duration = pos_part;
  text = tt;
  of_text = λ s. 0;
  alarm_id = tt;
  of_alarm_id = λ n. n;
  int = tt;
  of_int = pos_part;
  event = tt;
  of_event = event_number;
}

-- A clock that has not been used, where a client waits for the result of a call.
abbrev pub waiting_for : String → ClockService numbers
waiting_for name = record {
  service = record service { pending_calls = (name, 8) ∷ [] };
  alarms = [];
  tick_expiry = pos 0;
  tick_interval = pos 0;
  waits = [];
  next_alarm_id = 1;
  work = true;
  stopped = false;
}

waiting-IsNew : (name : String) → IsNew (waiting_for name)
waiting-IsNew name = record { no_alarms = refl; no_waits = refl; first_id = refl; no_ticks = refl }

abbrev pub clock : ClockService numbers
clock = waiting_for "ClockInterface::set_alarm"

abbrev clock_with_alarm : ClockService numbers
clock_with_alarm =
    (set_alarm 100 (pos 0) "tea" (pos 5)
      (answer plain_cereal linux 8 "set_alarm" types.alarm_id types.of_alarm_id) clock).1

alarm_set : Reach plain_cereal linux types clock 1 clock_with_alarm
unfolding set_alarm lookup cereal Cereal.serialize_call_result Cereal.archived save_result
    find_pending_call call_closure write_message_with_header fill_header of_value write
alarm_set = sets_alarm 100 (pos 0) "tea" (pos 5) 8 here refl refl refl

Reach-SoundAt_example : SoundAt 2 clock_with_alarm
Reach-SoundAt_example =
    Reach-SoundAt plain_cereal linux types clock 1 clock_with_alarm
      (waiting-IsNew "ClockInterface::set_alarm") alarm_set (omega arith)

abbrev alarm_wait : Wait
alarm_wait = record { handler = alarm_handler 100; cancelled = false }

abbrev aborted : ErrorCode
aborted = operation_aborted linux

abbrev expiring : ClockService numbers
expiring = record clock_with_alarm { waits = [] }

alarm_expired-cancelled_example :
    (a : Alarm) × (alarm_at numbers 100 clock_with_alarm.alarms ≡ some a)
    × (find_alarm numbers a.id clock_with_alarm.alarms ≡ some a)
    × (alarm_expired plain_cereal linux types 100 aborted expiring ≡ (ok tt, purged 100 expiring))
unfolding set_alarm
alarm_expired-cancelled_example =
    alarm_expired-cancelled plain_cereal linux types clock 1 100 clock_with_alarm [] [] alarm_wait
      aborted (waiting-IsNew "ClockInterface::set_alarm") alarm_set (omega arith) refl refl refl

abbrev tea : Alarm
tea = record { address = 100; id = 1; tag = "tea"; expires = pos 5 }

abbrev tea_service : Service numbers
tea_service =
    (broadcast_event plain_cereal linux interface_name (event_arg types (alarm_event 1 "tea"))
      clock_with_alarm.service).1

alarm_expired-fired_example :
    alarm_expired plain_cereal linux types 100 success expiring
    ≡ (ok tt, purged 100 (record clock_with_alarm { waits = []; service = tea_service }))
unfolding set_alarm alarm_at broadcast_event lookup cereal ◌+ℤ◌ check_thread_id call_closure
    find_pending_call write_message_with_header fill_header Cereal.archived save_result of_value
    write insert
alarm_expired-fired_example =
    alarm_expired-fired plain_cereal linux types clock 1 100 clock_with_alarm [] [] alarm_wait
      success tea tea_service (waiting-IsNew "ClockInterface::set_alarm") alarm_set (omega arith)
      refl refl refl refl refl

-- A second alarm has got the id of the first.
abbrev second : Alarm
second = record { address = 200; id = 1; tag = "coffee"; expires = pos 2 }

abbrev two_alarms : ClockService numbers
two_alarms = record clock { alarms = tea ∷ second ∷ [] }

abbrev coffee_service : Service numbers
coffee_service =
    (broadcast_event plain_cereal linux interface_name (event_arg types (alarm_event 1 "coffee"))
      two_alarms.service).1

alarm_expired-same_id_example :
    ((alarm_expired plain_cereal linux types 200 success
        >> alarm_expired plain_cereal linux types 100 aborted)
      two_alarms).0
    ≡ undefined
unfolding broadcast_event lookup cereal check_thread_id service_write write_message_with_header
    fill_header Cereal.archived write
alarm_expired-same_id_example =
    alarm_expired-same_id plain_cereal linux types tea second [] success aborted two_alarms
      coffee_service refl refl refl refl refl refl

abbrev idle_clock : ClockService numbers
idle_clock = waiting_for "ClockInterface::set_tick_interval"

abbrev ticking_clock : ClockService numbers
ticking_clock =
    (set_tick_interval (pos 0) (pos 20) (answer_void plain_cereal linux 8 "set_tick_interval")
      idle_clock).1

ticks_set : Reach plain_cereal linux types idle_clock 0 ticking_clock
unfolding set_tick_interval call_closure cereal find_pending_call lookup write_message_with_header
    fill_header Cereal.archived save_result of_value write
ticks_set = next here refl (sets_interval (pos 0) (pos 20) 8 refl)

Reach-IsTicking_example :
    live_ticks ticking_clock.waits ≡ (if is_zero ticking_clock.tick_interval then 0 else 1)
Reach-IsTicking_example =
    Reach-IsTicking plain_cereal linux types idle_clock 0 ticking_clock
      (waiting-IsNew "ClockInterface::set_tick_interval") ticks_set
