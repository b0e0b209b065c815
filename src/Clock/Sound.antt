-- ===== src/Clock/Sound.antt =====
-- The alarms of examples/cerclock/clockservice.cpp and the handlers of their timers, over any steps.
use cercall.Base.{
  ℕ, ◌+◌, ◌≤◌, ◌<◌, ◌≡◌, refl, ap, ◌∙◌, true, false, some, List, [], ◌∷◌, ◌++◌, nat_beq,
  if◌then◌else◌, arith,
}
use cercall.Base.Exec.{ok}
use cercall.Error.{System, ErrorCode}
use cercall.Archive.{Archive}
use cercall.Serialization.{Serialization}
use cercall.Service.{Service, broadcast_event}
use cercall.Clock.State.{
  Alarm, Handler, alarm_handler, tick_handler, Wait, cancel, async_wait, ClockTypes, alarm_event,
  event_arg, ClockService, find_alarm, alarm_at, erase_alarm, the_alarm,
}
use cercall.Clock.Functions.{interface_name}
use cercall.Clock.Timers.{
  not_aborted, broadcast_clock_event, purge_alarm, broadcast_alarm, alarm_expired,
}
use cercall.Clock.Alarms.{
  alarms_at, alarms_with, waits_for, one_if, waits_for-cancel, waits_for-async_tick,
  waits_for-async_wait, waits_for-take, alarms_at-add, alarms_with-add, alarms_at-pos,
  find_alarm_at, alarms_at-erase, alarms_with-erase,
}

-- Each alarm has its own address and an id of its own, below `bound`, and its timer has the one wait
-- that `set_alarm` has started, while no other alarm's handler is outstanding. The handlers that
-- `running` counts have left the waits, and still run.
pub record Matches (bound : ℕ) (running : ℕ → ℕ) (alarms : List Alarm) (waits : List Wait)
    : Type 0 where
  pub matched : (p : ℕ) → waits_for p waits + running p ≡ alarms_at p alarms
  pub single : (p : ℕ) → alarms_at p alarms ≤ 1
  pub distinct : (i : ℕ) → alarms_with i alarms ≤ 1
  pub below : (i : ℕ) → bound ≤ i → alarms_with i alarms ≡ 0

abbrev pub no_handler : ℕ → ℕ
no_handler p = 0

-- Between two steps no handler runs; `k` is the id of the next alarm.
abbrev pub SoundAt : {lib : Archive} → ℕ → ClockService lib → Type 0
SoundAt k c = (c.next_alarm_id ≡ k) × Matches k no_handler c.alarms c.waits

pub Matches-cancel :
    (bound : ℕ) (running : ℕ → ℕ) (alarms : List Alarm) (waits : List Wait) (h : Handler)
    → Matches bound running alarms waits
    → Matches bound running alarms (cancel h waits)
Matches-cancel bound running alarms waits h m = record {
  matched = λ p. omega (arith, waits_for-cancel p h waits, m.matched p);
  single = m.single;
  distinct = m.distinct;
  below = m.below;
}

pub Matches-tick :
    (bound : ℕ) (running : ℕ → ℕ) (alarms : List Alarm) (waits : List Wait)
    → Matches bound running alarms waits
    → Matches bound running alarms (async_wait tick_handler waits)
Matches-tick bound running alarms waits m = record {
  matched = λ p. omega (arith, waits_for-async_tick p waits, m.matched p);
  single = m.single;
  distinct = m.distinct;
  below = m.below;
}

pub Matches-add :
    (bound : ℕ) (alarms : List Alarm) (waits : List Wait) (a : Alarm)
    → Matches bound no_handler alarms waits
    → a.id ≡ bound
    → alarms_at a.address alarms ≡ 0
    → Matches (bound + 1) no_handler (alarms ++ a ∷ []) (async_wait (alarm_handler a.address) waits)
Matches-add bound alarms waits a m e fresh = record {
  matched = λ p.
      omega (arith, waits_for-async_wait p a.address waits, alarms_at-add p alarms a, m.matched p);
  single = λ p. ground (arith, alarms_at-add p alarms a, m.single p);
  distinct = λ i. ground (arith, alarms_with-add i alarms a, m.distinct i, m.below i);
  below = λ i h. ground (arith, alarms_with-add i alarms a, m.below i);
}

-- A wait of an alarm's handler is taken from the outstanding ones.
pub Matches-take :
    (bound p : ℕ) (alarms : List Alarm) (front back : List Wait) (w : Wait)
    → Matches bound no_handler alarms (front ++ w ∷ back)
    → w.handler ≡ alarm_handler p
    → Matches bound (λ q. one_if (nat_beq p q)) alarms (front ++ back)
Matches-take bound p alarms front back w m e = record {
  matched = λ q. ground (arith, waits_for-take q front back w, m.matched q);
  single = m.single;
  distinct = m.distinct;
  below = m.below;
}

pub Matches-take_tick :
    (bound : ℕ) (alarms : List Alarm) (front back : List Wait) (w : Wait)
    → Matches bound no_handler alarms (front ++ w ∷ back)
    → w.handler ≡ tick_handler
    → Matches bound no_handler alarms (front ++ back)
Matches-take_tick bound alarms front back w m e = record {
  matched = λ q. ground (arith, waits_for-take q front back w, m.matched q);
  single = m.single;
  distinct = m.distinct;
  below = m.below;
}

pub Matches-erase :
    (lib : Archive) (bound p : ℕ) (alarms : List Alarm) (waits : List Wait)
    → Matches bound (λ q. one_if (nat_beq p q)) alarms waits
    → Matches bound no_handler (erase_alarm lib p alarms) (cancel (alarm_handler p) waits)
Matches-erase lib bound p alarms waits m = record {
  matched = λ q. ground (
    arith,
    waits_for-cancel q (alarm_handler p) waits,
    alarms_at-erase lib p q alarms stands,
    m.matched q,
  );
  single = λ q. ground (arith, alarms_at-erase lib p q alarms stands, m.single q);
  distinct = λ i. omega (arith, m.distinct i, alarms_with-erase lib p i alarms);
  below = λ i h. omega (arith, m.below i h, alarms_with-erase lib p i alarms);
}
  where
    stands : 0 < alarms_at p alarms
    stands = ground (arith, m.matched p)

module _ {lib : Archive} where
  -- The clock after the alarm at an address has been purged.
  abbrev pub purged : ℕ → ClockService lib → ClockService lib
  purged p c = record c {
    alarms = erase_alarm lib p c.alarms;
    waits = cancel (alarm_handler p) c.waits;
  }

  -- The alarm whose handler runs is there, and no other has its id.
  pub running_alarm :
      (p : ℕ) (c : ClockService lib) (bound : ℕ)
      → Matches bound (λ q. one_if (nat_beq p q)) c.alarms c.waits
      → (a : Alarm) × (alarm_at lib p c.alarms ≡ some a)
        × (find_alarm lib a.id c.alarms ≡ some a)
        × (a.address ≡ p)
  running_alarm p c bound m =
      let (a, found, e) = alarms_at-pos lib p c.alarms (ground (arith, m.matched p)) in
      (a, found, find_alarm_at lib p a c.alarms found (m.distinct a.id), e)

module _ {lib : Archive} (S : Serialization lib) (sys : System) (types : ClockTypes lib) where
  purge_alarm-found :
      (p : ℕ) (a found : Alarm) (c : ClockService lib)
      → alarm_at lib p c.alarms ≡ some a
      → find_alarm lib a.id c.alarms ≡ some found
      → purge_alarm S sys types p c ≡ (ok tt, purged found.address c)
  unfolding purge_alarm the_alarm
  purge_alarm-found p a found c there e = rw there (rw e refl)

  pub purge_alarm-purged :
      (p : ℕ) (a : Alarm) (c : ClockService lib)
      → alarm_at lib p c.alarms ≡ some a
      → find_alarm lib a.id c.alarms ≡ some a
      → a.address ≡ p
      → purge_alarm S sys types p c ≡ (ok tt, purged p c)
  purge_alarm-purged p a c there found e =
      purge_alarm-found p a a c there found ∙ ap (λ q. (ok tt, purged q c)) e

  pub alarm_expired-aborted :
      (p : ℕ) (a : Alarm) (ec : ErrorCode) (c : ClockService lib)
      → alarm_at lib p c.alarms ≡ some a
      → find_alarm lib a.id c.alarms ≡ some a
      → a.address ≡ p
      → not_aborted sys ec ≡ false
      → alarm_expired S sys types p ec c ≡ (ok tt, purged p c)
  unfolding alarm_expired
  alarm_expired-aborted p a ec c there found e aborted =
      rw (aborted, if◌then◌else◌) (purge_alarm-purged p a c there found e)

  -- The alarm that is purged is the one that is found by the id of the expired one.
  pub alarm_expired-found :
      (p : ℕ) (a found : Alarm) (ec : ErrorCode) (c : ClockService lib) (s : Service lib)
      → alarm_at lib p c.alarms ≡ some a
      → find_alarm lib a.id c.alarms ≡ some found
      → not_aborted sys ec ≡ true
      → broadcast_event S sys interface_name (event_arg types (alarm_event a.id a.tag)) c.service
        ≡ (ok tt, s)
      → alarm_expired S sys types p ec c ≡ (ok tt, purged found.address (record c { service = s }))
  unfolding alarm_expired broadcast_alarm broadcast_clock_event the_alarm
  alarm_expired-found p a found ec c s there e fired sent =
      rw (fired, if◌then◌else◌)
        (rw there (rw sent (purge_alarm-found p a found (record c { service = s }) there e)))
