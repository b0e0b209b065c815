-- ===== src/Clock/Ticks.antt =====
-- The ticks of examples/cerclock/clockservice.cpp, over any steps.
use cercall.Base.{
  ℕ, zero, suc, ◌+◌, String, ◌≡◌, refl, subst, ap, ◌∙◌, true, false, none, some, Option, List, ◌∷◌,
  ◌++◌, if◌then◌else◌, arith, Bool-cases, inl, inr,
}
use cercall.Base.Exec.{ok, throws, aborts, undefined, out_of_fuel, Outcome, continue}
use cercall.Base.Keeps.{Keeps, keeps_rules}
use cercall.Base.Int.{ℤ, is_zero}
use cercall.Error.{System, ErrorCode}
use cercall.Result.{Result}
use cercall.Archive.{Archive}
use cercall.Serialization.{Serialization}
use cercall.Service.{broadcast_event}
use cercall.Clock.State.{
  Alarm, Handler, alarm_handler, tick_handler, Wait, cancel, async_wait, ClockTypes, tick_event,
  ClockEvent, event_arg, ClockService, Closure, the_alarm, found_alarm, alarm_at,
}
use cercall.Clock.Functions.{
  get_time, set_tick_interval, set_alarm, cancel_alarm, cancel_found, close_service, signal_handler,
  interface_name, answer_void,
}
use cercall.Clock.Timers.{
  not_aborted, broadcast_clock_event, tick_timer, rearm, purge_alarm, purge_found, broadcast_alarm,
  alarm_expired, run_handler,
}
use cercall.Clock.Alarms.{
  live_tick, live_ticks, live_ticks-cancel, live_ticks-cancel_alarm, live_ticks-async_tick,
  live_ticks-async_wait, live_ticks-take,
}
use cercall.Clock.Steps.{
  IsNew, IsDocumented, Step, serves, gives_time, sets_interval, cancels_alarm, closes, gets_signal,
  completes, Reach, here, next, sets_alarm,
}

-- While the interval is not 0 one wait for a tick is outstanding that has not been cancelled, and
-- none while it is.
abbrev ticks_of : ℤ → ℕ
ticks_of interval = if is_zero interval then 0 else 1

abbrev pub IsTicking : {lib : Archive} → ClockService lib → Type 0
IsTicking c = live_ticks c.waits ≡ ticks_of c.tick_interval

rearmed :
    (interval : ℤ) (waits : List Wait)
    → is_zero interval ≡ false
    → live_ticks (async_wait tick_handler (cancel tick_handler waits)) ≡ ticks_of interval
rearmed interval waits nz =
    live_ticks-async_tick (cancel tick_handler waits)
    ∙ ap (λ (n : ℕ). n + 1) (live_ticks-cancel waits)
    ∙ rw (nz, ticks_of) refl

-- A wait that is not for a tick, or has been cancelled, is taken.
taken_dead :
    (n : ℕ) (waits front back : List Wait) (w : Wait)
    → live_ticks waits ≡ n
    → waits ≡ front ++ w ∷ back
    → live_tick w ≡ false
    → live_ticks (front ++ back) ≡ n
taken_dead n waits front back w h q dead =
    ground (arith, live_ticks-take front back w, ap live_ticks q)

taken_none :
    (waits front back : List Wait) (w : Wait)
    → live_ticks waits ≡ 0
    → waits ≡ front ++ w ∷ back
    → live_ticks (front ++ back) ≡ 0
taken_none waits front back w h q = ground (arith, live_ticks-take front back w, ap live_ticks q)

module _ {lib : Archive} where
  cancel-IsTicking :
      (p : ℕ) (c : ClockService lib)
      → IsTicking c
      → IsTicking (record c { waits = cancel (alarm_handler p) c.waits })
  cancel-IsTicking p c h = live_ticks-cancel_alarm p c.waits ∙ h

  cancel_found-IsTicking : (found : Option Alarm) → Keeps IsTicking (cancel_found {lib = lib} found)
  unfolding cancel_found
  cancel_found-IsTicking none = search keeps_rules
  cancel_found-IsTicking (some a) = record { at = cancel-IsTicking a.address }

  abbrev IsServed : {A : Type 0} → Closure lib A → Type 0
  IsServed {A} cl = (r : Result A) → Keeps IsTicking (cl r)

  cancel_alarm-IsTicking :
      (alarm : ℕ) (cl : Closure lib (Unit {0}))
      → IsServed cl
      → Keeps IsTicking (cancel_alarm alarm cl)
  unfolding cancel_alarm
  cancel_alarm-IsTicking alarm cl served =
      search (keeps_rules, cancel_found-IsTicking, served) depth 8

  set_tick_interval-IsTicking :
      (now interval : ℤ) (cl : Closure lib (Unit {0})) (c : ClockService lib)
      → IsServed cl
      → IsTicking (set_tick_interval now interval cl c).1
  unfolding set_tick_interval
  set_tick_interval-IsTicking now interval cl c served = elim (Bool-cases (is_zero interval)) [
    | inl z ↦
        rw (z, if◌then◌else◌) ((served _).at _ (live_ticks-cancel c.waits ∙ rw (z, ticks_of) refl))
    | inr nz ↦
        rw (nz, if◌then◌else◌) ((served _).at _ (rearmed interval (cancel tick_handler c.waits) nz))
  ]

module _ {lib : Archive} (S : Serialization lib) (sys : System) (types : ClockTypes lib) where
  found_alarm-IsTicking : (a : Option Alarm) → Keeps IsTicking (found_alarm lib a)
  unfolding found_alarm
  found_alarm-IsTicking none = record { at = λ s h. h }
  found_alarm-IsTicking (some a) = record { at = λ s h. h }

  the_alarm-IsTicking : (p : ℕ) → Keeps IsTicking (the_alarm lib p)
  unfolding the_alarm
  the_alarm-IsTicking p = record {
    at = λ s h. (found_alarm-IsTicking (alarm_at lib p s.alarms)).at s h;
  }

  purge_found-IsTicking : (found : Option Alarm) → Keeps IsTicking (purge_found S sys types found)
  unfolding purge_found
  purge_found-IsTicking none = search keeps_rules
  purge_found-IsTicking (some a) = record { at = cancel-IsTicking a.address }

  broadcast-IsTicking : (ev : ClockEvent) → Keeps IsTicking (broadcast_clock_event S sys types ev)
  unfolding broadcast_clock_event
  broadcast-IsTicking ev = record { at = λ s h. h }

  alarm_expired-IsTicking :
      (p : ℕ) (ec : ErrorCode) → Keeps IsTicking (alarm_expired S sys types p ec)
  unfolding alarm_expired broadcast_alarm purge_alarm
  alarm_expired-IsTicking p ec =
      search (keeps_rules, the_alarm-IsTicking, purge_found-IsTicking, broadcast-IsTicking) depth 12

  rearm-IsTicking :
      (c d : ClockService lib) (o : Outcome (Unit {0}))
      → (is_zero c.tick_interval ≡ true → live_ticks c.waits ≡ 0)
      → continue o (λ _. rearm S sys types) c ≡ (ok tt, d)
      → IsTicking d
  unfolding rearm
  rearm-IsTicking c d (ok tt) l h = elim (Bool-cases (is_zero c.tick_interval)) [
    | inl z ↦
        subst IsTicking (ap (λ r. r.1) (rw (z, if◌then◌else◌) at h)) (l z ∙ rw (z, ticks_of) refl)
    | inr nz ↦
        subst IsTicking (ap (λ r. r.1) (rw (nz, if◌then◌else◌) at h))
          (rearmed c.tick_interval c.waits nz)
  ]
  rearm-IsTicking c d (throws x) l h = absurd (cc)
  rearm-IsTicking c d aborts l h = absurd (cc)
  rearm-IsTicking c d undefined l h = absurd (cc)
  rearm-IsTicking c d out_of_fuel l h = absurd (cc)

  -- A wait is taken from the outstanding ones, and its handler returns.
  run_handler-IsTicking :
      (now : ℤ) (front back : List Wait) (w : Wait) (handler : Handler) (ec : ErrorCode)
      (c d : ClockService lib)
      → IsTicking c
      → c.waits ≡ front ++ w ∷ back
      → IsDocumented sys w ec
      → w.handler ≡ handler
      → run_handler S sys types now handler ec (record c { waits = front ++ back }) ≡ (ok tt, d)
      → IsTicking d
  unfolding run_handler tick_timer broadcast_clock_event
  run_handler-IsTicking now front back w (alarm_handler p) ec c d h q doc at r =
      subst IsTicking (ap (λ x. x.1) r) (
        (alarm_expired-IsTicking p ec).at (record c { waits = front ++ back })
          (taken_dead _ c.waits front back w h q (ground arith)))
  run_handler-IsTicking now front back w tick_handler ec c d h q doc at r =
      elim (Bool-cases (not_aborted sys ec)) [
        | inl fired ↦
            let (o, s) =
              broadcast_event S sys interface_name (event_arg types (tick_event now)) c.service in
            rearm-IsTicking (record c { waits = front ++ back; service = s }) d o
              (λ z. taken_none c.waits front back w (h ∙ rw (z, ticks_of) refl) q)
              (rw (fired, if◌then◌else◌) at r)
        | inr aborted ↦
            subst IsTicking (ap (λ x. x.1) (rw (aborted, if◌then◌else◌) at r))
              (taken_dead _ c.waits front back w h q (ground (arith, doc aborted)))
      ]

  answer_void-IsTicking : (client : ℕ) (name : String) → IsServed (answer_void S sys client name)
  answer_void-IsTicking client name r = record { at = λ s h. h }

  Step-IsTicking : {c d : ClockService lib} → Step S sys types c d → IsTicking c → IsTicking d
  unfolding get_time close_service signal_handler
  Step-IsTicking (serves op) h = h
  Step-IsTicking (gives_time now client e) h = subst IsTicking (ap (λ r. r.1) e) h
  Step-IsTicking {c} (sets_interval now interval client e) h = subst IsTicking (ap (λ r. r.1) e) (
      set_tick_interval-IsTicking now interval _ c
        (answer_void-IsTicking client "set_tick_interval"))
  Step-IsTicking {c} (cancels_alarm alarm client e) h =
      subst IsTicking (ap (λ r. r.1) e)
        ((cancel_alarm-IsTicking alarm _ (answer_void-IsTicking client "cancel_alarm")).at c h)
  Step-IsTicking (closes reason client e) h = subst IsTicking (ap (λ r. r.1) e) h
  Step-IsTicking (gets_signal true) h = h
  Step-IsTicking (gets_signal false) h = h
  Step-IsTicking {c} {d} (completes now front back w ec e doc r) h =
      run_handler-IsTicking now front back w w.handler ec c d h e doc refl r

  -- In every clock that a new one comes to by any steps, where the library aborts no wait whose timer
  -- has not been cancelled: one wait for a tick is outstanding that has not been cancelled, if the
  -- interval is not 0, and none if it is.
  pub Reach-IsTicking :
      (new : ClockService lib) (n : ℕ) (c : ClockService lib)
      → IsNew new
      → Reach S sys types new n c
      → live_ticks c.waits ≡ (if is_zero c.tick_interval then 0 else 1)
  unfolding set_alarm
  Reach-IsTicking new zero c start here = rw (start.no_waits, start.no_ticks) refl
  Reach-IsTicking new n c start (next r running st) =
      Step-IsTicking st (Reach-IsTicking new n _ start r)
  Reach-IsTicking new (suc n) c start
        (sets_alarm {d = d} p now tag after client r running fresh e) =
      subst IsTicking (ap (λ r. r.1) e)
        (live_ticks-async_wait p d.waits ∙ Reach-IsTicking new n d start r)
