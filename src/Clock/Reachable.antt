-- ===== src/Clock/Reachable.antt =====
-- The alarms of examples/cerclock/clockservice.cpp, in every clock that its steps come to.
use cercall.Base.{
  ℕ, zero, suc, ◌+◌, ◌^◌, ◌<◌, ◌≡◌, refl, subst, sym, ap, ◌∙◌, true, false, none, some, Option,
  String, List, ◌∷◌, ◌++◌, nat_beq, if◌then◌else◌, arith, Bool-cases, inl, inr,
}
use cercall.Base.Exec.{modify, ok, throws, aborts, undefined, out_of_fuel, Outcome, Exec, continue}
use cercall.Base.Keeps.{Keeps, keeps_rules}
use cercall.Base.Int.{ℤ, ◌+ℤ◌}
use cercall.Error.{System, ErrorCode}
use cercall.Archive.{Archive}
use cercall.Serialization.{Serialization}
use cercall.Result.{Result}
use cercall.Service.{Service, broadcast_event}
use cercall.Clock.State.{
  Alarm, Handler, alarm_handler, tick_handler, Wait, cancel, async_wait, ClockTypes, alarm_event,
  event_arg, ClockService, the_alarm, on_service, Closure,
}
use cercall.Clock.Functions.{
  get_time, set_interval, start_ticks, set_tick_interval, set_alarm, cancel_alarm, cancel_found,
  close_service, signal_handler, answer, answer_void, interface_name,
}
use cercall.Clock.Timers.{
  not_aborted, broadcast_clock_event, tick_timer, rearm, purge_alarm, broadcast_alarm,
  alarm_expired, run_handler,
}
use cercall.Clock.Alarms.{alarms_at, one_if}
use cercall.Clock.Steps.{
  IsNew, Step, serves, gives_time, sets_interval, cancels_alarm, closes, gets_signal, completes,
  Reach, here, next, sets_alarm,
}
use cercall.Clock.Sound.{
  Matches, SoundAt, no_handler, Matches-cancel, Matches-tick, Matches-add, Matches-take,
  Matches-take_tick, Matches-erase, purged, running_alarm, purge_alarm-purged,
}

module _ {lib : Archive} (k : ℕ) where
  on_service-SoundAt :
      {A : Type 0} (m : Exec (Service lib) A) → Keeps (SoundAt k) (on_service lib m)
  on_service-SoundAt m = record { at = λ s h. h }

  cancel-SoundAt :
      (h : Handler) (c : ClockService lib)
      → SoundAt k c
      → SoundAt k (record c { waits = cancel h c.waits })
  cancel-SoundAt h c (e, m) = (e, Matches-cancel k no_handler c.alarms c.waits h m)

  rearm-SoundAt :
      (expiry : ClockService lib → ℤ)
      → Keeps (SoundAt k) (
          modify (λ (c : ClockService lib). record c {
            tick_expiry = expiry c;
            waits = async_wait tick_handler (cancel tick_handler c.waits);
          }))
  rearm-SoundAt expiry = record { at = kept }
    where
      kept :
          (c : ClockService lib)
          → SoundAt k c
          → SoundAt k (record c { waits = async_wait tick_handler (cancel tick_handler c.waits) })
      kept c h =
          let (e, m) = cancel-SoundAt tick_handler c h in
          (e, Matches-tick k no_handler c.alarms (cancel tick_handler c.waits) m)

  set_interval-SoundAt : (interval : ℤ) → Keeps (SoundAt k) (set_interval {lib = lib} interval)
  unfolding set_interval
  set_interval-SoundAt interval = record { at = λ s h. cancel-SoundAt tick_handler s h }

  start_ticks-SoundAt :
      (now interval : ℤ) → Keeps (SoundAt k) (start_ticks {lib = lib} now interval)
  unfolding start_ticks
  start_ticks-SoundAt now interval = search (keeps_rules, rearm-SoundAt) depth 4

  abbrev IsServed : {A : Type 0} → Closure lib A → Type 0
  IsServed {A} cl = (r : Result A) → Keeps (SoundAt k) (cl r)

  cancel_found-SoundAt : (found : Option Alarm) → Keeps (SoundAt k) (cancel_found {lib = lib} found)
  unfolding cancel_found
  cancel_found-SoundAt none = search keeps_rules
  cancel_found-SoundAt (some a) = record { at = cancel-SoundAt (alarm_handler a.address) }

  cancel_alarm-SoundAt :
      (alarm : ℕ) (cl : Closure lib (Unit {0}))
      → IsServed cl
      → Keeps (SoundAt k) (cancel_alarm alarm cl)
  unfolding cancel_alarm
  cancel_alarm-SoundAt alarm cl served = search (keeps_rules, cancel_found-SoundAt, served) depth 8

  set_tick_interval-SoundAt :
      (now interval : ℤ) (cl : Closure lib (Unit {0}))
      → IsServed cl
      → Keeps (SoundAt k) (set_tick_interval now interval cl)
  unfolding set_tick_interval
  set_tick_interval-SoundAt now interval cl served =
      search (keeps_rules, served, set_interval-SoundAt, start_ticks-SoundAt) depth 8

module _ {lib : Archive} (k : ℕ) (S : Serialization lib) (sys : System)
    (types : ClockTypes lib) where
  tick_timer-SoundAt :
      (now : ℤ) (ec : ErrorCode) → Keeps (SoundAt k) (tick_timer S sys types now ec)
  unfolding tick_timer rearm broadcast_clock_event
  tick_timer-SoundAt now ec =
      search (keeps_rules, on_service-SoundAt {lib = lib} k, rearm-SoundAt {lib = lib} k) depth 10

  -- What a handler leaves, if it returns.
  after_purge :
      (p : ℕ) (c : ClockService lib)
      → c.next_alarm_id ≡ k
      → Matches k (λ q. one_if (nat_beq p q)) c.alarms c.waits
      → (purge_alarm S sys types p c ≡ (ok tt, purged p c)) × SoundAt k (purged p c)
  after_purge p c e m =
      let (a, there, found, at) = running_alarm p c k m in
      (
        purge_alarm-purged S sys types p a c there found at,
        (e, Matches-erase lib k p c.alarms c.waits m),
      )

  continue-SoundAt :
      (p : ℕ) (o : Outcome (Unit {0})) (c d : ClockService lib)
      → c.next_alarm_id ≡ k
      → Matches k (λ q. one_if (nat_beq p q)) c.alarms c.waits
      → continue o (λ _. purge_alarm S sys types p) c ≡ (ok tt, d)
      → SoundAt k d
  continue-SoundAt p (ok tt) c d e m h =
      let (purges, sound) = after_purge p c e m in
      subst (SoundAt k) (ap (λ r. r.1) (sym purges ∙ h)) sound
  continue-SoundAt p (throws x) c d e m h = absurd (cc)
  continue-SoundAt p aborts c d e m h = absurd (cc)
  continue-SoundAt p undefined c d e m h = absurd (cc)
  continue-SoundAt p out_of_fuel c d e m h = absurd (cc)

  alarm_expired-SoundAt :
      (p : ℕ) (ec : ErrorCode) (c d : ClockService lib)
      → c.next_alarm_id ≡ k
      → Matches k (λ q. one_if (nat_beq p q)) c.alarms c.waits
      → alarm_expired S sys types p ec c ≡ (ok tt, d)
      → SoundAt k d
  unfolding alarm_expired broadcast_alarm broadcast_clock_event the_alarm
  alarm_expired-SoundAt p ec c d e m h = elim (Bool-cases (not_aborted sys ec)) [
    | inl fired ↦
        let (a, there, found, at) = running_alarm p c k m in
        let (o, s) =
          broadcast_event S sys interface_name (event_arg types (alarm_event a.id a.tag))
            c.service in
        continue-SoundAt p o (record c { service = s }) d e m
          (rw there at (rw (fired, if◌then◌else◌) at h))
    | inr aborted ↦ continue-SoundAt p (ok tt) c d e m (rw (aborted, if◌then◌else◌) at h)
  ]

  run_handler-SoundAt :
      (now : ℤ) (front back : List Wait) (w : Wait) (handler : Handler) (ec : ErrorCode)
      (c d : ClockService lib)
      → SoundAt k c
      → c.waits ≡ front ++ w ∷ back
      → w.handler ≡ handler
      → run_handler S sys types now handler ec (record c { waits = front ++ back }) ≡ (ok tt, d)
      → SoundAt k d
  unfolding run_handler
  run_handler-SoundAt now front back w (alarm_handler p) ec c d (e, m) q at h =
      alarm_expired-SoundAt p ec (record c { waits = front ++ back }) d e
        (Matches-take k p c.alarms front back w (subst (Matches k no_handler c.alarms) q m) at) h
  run_handler-SoundAt now front back w tick_handler ec c d (e, m) q at h =
      subst (SoundAt k) (ap (λ r. r.1) h) (
        (tick_timer-SoundAt now ec).at (record c { waits = front ++ back })
          (
            e,
            Matches-take_tick k c.alarms front back w (subst (Matches k no_handler c.alarms) q m)
                at,
          ))

  answer_void-SoundAt : (client : ℕ) (name : String) → IsServed k (answer_void S sys client name)
  answer_void-SoundAt client name r = record { at = λ s h. h }

  Step-SoundAt : {c d : ClockService lib} → Step S sys types c d → SoundAt k c → SoundAt k d
  unfolding get_time close_service signal_handler
  Step-SoundAt (serves op) h = h
  Step-SoundAt (gives_time now client e) h = subst (SoundAt k) (ap (λ r. r.1) e) h
  Step-SoundAt {c} (sets_interval now interval client e) h = subst (SoundAt k) (ap (λ r. r.1) e) (
      (set_tick_interval-SoundAt k now interval _
          (answer_void-SoundAt client "set_tick_interval")).at
        c h)
  Step-SoundAt {c} (cancels_alarm alarm client e) h =
      subst (SoundAt k) (ap (λ r. r.1) e)
        ((cancel_alarm-SoundAt k alarm _ (answer_void-SoundAt client "cancel_alarm")).at c h)
  Step-SoundAt (closes reason client e) h = subst (SoundAt k) (ap (λ r. r.1) e) h
  Step-SoundAt (gets_signal true) h = h
  Step-SoundAt (gets_signal false) h = h
  Step-SoundAt {c} {d} (completes now front back w ec e doc r) h =
      run_handler-SoundAt now front back w w.handler ec c d h e refl r

  set_alarm-SoundAt :
      (p : ℕ) (now after : ℤ) (tag : String) (client : ℕ) (c : ClockService lib)
      → k + 1 < 2 ^ 32
      → SoundAt k c
      → alarms_at p c.alarms ≡ 0
      → SoundAt
          (k + 1)
          (set_alarm p now tag after
            (answer S sys client "set_alarm" types.alarm_id types.of_alarm_id)
            c).1
  unfolding set_alarm
  set_alarm-SoundAt p now after tag client c bound (e, m) fresh = (
    omega arith,
    Matches-add k c.alarms c.waits
        (record { address = p; id = c.next_alarm_id; tag = tag; expires = now +ℤ after }) m e fresh,
  )

module _ {lib : Archive} (S : Serialization lib) (sys : System) (types : ClockTypes lib) where
  -- In every clock that a new one comes to by any steps, of which `n` set an alarm, `n + 1` being below
  -- 2 ^ 32: the next alarm's id is `n + 1`; every alarm has an address and an id of its own, the id
  -- below `n + 1`; and the timer of every alarm has one outstanding wait, and no handler is
  -- outstanding whose alarm is gone.
  pub Reach-SoundAt :
      (new : ClockService lib) (n : ℕ) (c : ClockService lib)
      → IsNew new
      → Reach S sys types new n c
      → n + 1 < 2 ^ 32
      → SoundAt (n + 1) c
  Reach-SoundAt new zero c start here bound = (
    start.first_id ∙ omega arith,
    record {
      matched = λ p. rw (start.no_waits, start.no_alarms) refl;
      single = λ p. rw start.no_alarms (omega arith);
      distinct = λ i. rw start.no_alarms (omega arith);
      below = λ i h. rw start.no_alarms refl;
    },
  )
  Reach-SoundAt new n c start (next r running st) bound =
      Step-SoundAt (n + 1) S sys types st (Reach-SoundAt new n _ start r bound)
  Reach-SoundAt new (suc n) c start (sets_alarm {d = d} p now tag after client r running fresh e)
        bound =
      let before = Reach-SoundAt new n d start r (omega arith) in
      let sound =
        set_alarm-SoundAt (n + 1) S sys types p now after tag client d (omega arith) before fresh in
      subst (λ k. SoundAt k c) (omega arith) (subst (SoundAt (n + 1 + 1)) (ap (λ r. r.1) e) sound)
