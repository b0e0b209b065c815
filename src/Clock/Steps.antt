-- ===== src/Clock/Steps.antt =====
-- What may happen to the clock of examples/cerclock/clockservice.cpp, one step after the other.
use cercall.Base.{ℕ, suc, ◌≡◌, refl, Bool, true, false, String, List, [], ◌∷◌, ◌++◌}
use cercall.Base.Exec.{ok}
use cercall.Base.Int.{ℤ, pos}
use cercall.Error.{System, ErrorCode}
use cercall.Archive.{Archive}
use cercall.Serialization.{Serialization}
use cercall.Service.History.{Operation, step}
use cercall.Clock.State.{ClockTypes, ClockService, Wait, new_clock}
use cercall.FunctionDict.{FuncDict}
use cercall.Clock.Functions.{
  get_time, set_tick_interval, set_alarm, cancel_alarm, close_service, signal_handler, answer,
  answer_void, interface_name,
}
use cercall.Clock.Timers.{run_handler, not_aborted}
use cercall.Clock.Alarms.{alarms_at}

-- The library completes a wait with `operation_aborted` only if its timer has been cancelled.
abbrev pub IsDocumented : System → Wait → ErrorCode → Type 0
IsDocumented sys w ec = not_aborted sys ec ≡ false → w.cancelled ≡ true

module _ {lib : Archive} (S : Serialization lib) (sys : System) (types : ClockTypes lib) where
  -- A step that does not set an alarm: an operation of the base class, the body of a function that
  -- a client has called, a signal, or a handler that returns. One that throws ends `main`.
  pub data Step (c : ClockService lib) : ClockService lib → Type 0 where
    serves :
        (op : Operation lib)
        → Step c (record c { service = step S sys interface_name op c.service })
    gives_time :
        (now : ℤ) (client : ℕ) {d : ClockService lib}
        → get_time now (answer S sys client "get_time" types.time_point types.of_time) c
          ≡ (ok tt, d)
        → Step c d
    sets_interval :
        (now interval : ℤ) (client : ℕ) {d : ClockService lib}
        → set_tick_interval now interval (answer_void S sys client "set_tick_interval") c
          ≡ (ok tt, d)
        → Step c d
    cancels_alarm :
        (alarm client : ℕ) {d : ClockService lib}
        → cancel_alarm alarm (answer_void S sys client "cancel_alarm") c ≡ (ok tt, d)
        → Step c d
    closes :
        (reason : String) (client : ℕ) {d : ClockService lib}
        → close_service reason (answer S sys client "close_service" types.int types.of_int) c
          ≡ (ok tt, d)
        → Step c d
    gets_signal : (terminates : Bool) → Step c (signal_handler terminates c)
    completes :
        (now : ℤ) (front back : List Wait) (w : Wait) (ec : ErrorCode) {d : ClockService lib}
        → c.waits ≡ front ++ w ∷ back
        → IsDocumented sys w ec
        → run_handler S sys types now w.handler ec (record c { waits = front ++ back }) ≡ (ok tt, d)
        → Step c d

  -- The clocks that a clock comes to while its loop of events runs and `n` alarms are set, each at an
  -- address of no other alarm.
  pub data Reach (c : ClockService lib) : ℕ → ClockService lib → Type 0 where
    here : Reach c 0 c
    next :
        {n : ℕ} {d e : ClockService lib} → Reach c n d → d.stopped ≡ false → Step d e → Reach c n e
    sets_alarm :
        {n : ℕ} {d e : ClockService lib} (p : ℕ) (now : ℤ) (tag : String) (after : ℤ) (client : ℕ)
        → Reach c n d
        → d.stopped ≡ false
        → alarms_at p d.alarms ≡ 0
        → set_alarm p now tag after
            (answer S sys client "set_alarm" types.alarm_id types.of_alarm_id)
            d
          ≡ (ok tt, e)
        → Reach c (suc n) e

-- No alarm has been set, no wait is outstanding, and no ticks have been asked for.
pub record IsNew {lib : Archive} (c : ClockService lib) : Type 0 where
  pub no_alarms : c.alarms ≡ []
  pub no_waits : c.waits ≡ []
  pub first_id : c.next_alarm_id ≡ 1
  pub no_ticks : c.tick_interval ≡ pos 0

pub new_clock-IsNew :
    (lib : Archive) (thread : ℕ) (dict : FuncDict lib) → IsNew (new_clock lib thread dict)
unfolding new_clock
new_clock-IsNew lib thread dict = record {
  no_alarms = refl;
  no_waits = refl;
  first_id = refl;
  no_ticks = refl;
}
