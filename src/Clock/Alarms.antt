-- ===== src/Clock/Alarms.antt =====
-- The lists of alarms and waits of examples/cerclock/clockservice.cpp.
use cercall.Base.{
  ℕ, ◌+◌, ◌≤◌, ◌<◌, ◌≡◌, refl, Bool, false, some, List, [], ◌∷◌, ◌++◌, nat_beq, if◌then◌else◌,
  count_if, count_if-append, arith, Bool-cases, inl, inr,
}
use cercall.Archive.{Archive}
use cercall.Clock.State.{
  Alarm, Handler, alarm_handler, tick_handler, same_handler, Wait, cancel, async_wait, find_alarm,
  alarm_at, erase_alarm,
}

abbrev is_at : ℕ → Alarm → Bool
is_at p a = nat_beq a.address p

abbrev has_id : ℕ → Alarm → Bool
has_id i a = nat_beq a.id i

-- How many alarms are at an address, and how many have an id.
abbrev pub alarms_at : ℕ → List Alarm → ℕ
alarms_at p = count_if (is_at p)

abbrev pub alarms_with : ℕ → List Alarm → ℕ
alarms_with i = count_if (has_id i)

abbrev waits_on : Handler → Wait → Bool
waits_on h w = same_handler h w.handler

-- How many waits the handler of an alarm has.
abbrev pub waits_for : ℕ → List Wait → ℕ
waits_for p = count_if (waits_on (alarm_handler p))

abbrev pub live_tick : Wait → Bool
live_tick w = if w.cancelled then false else same_handler tick_handler w.handler

-- How many waits of `tickTimer` have not been cancelled.
abbrev pub live_ticks : List Wait → ℕ
live_ticks = count_if live_tick

abbrev pub one_if : Bool → ℕ
one_if b = if b then 1 else 0

pub waits_for-cancel :
    (p : ℕ) (h : Handler) (ws : List Wait) → waits_for p (cancel h ws) ≡ waits_for p ws
waits_for-cancel p h [] = refl
waits_for-cancel p h (w ∷ ws) = omega (arith, waits_for-cancel p h ws)

pub live_ticks-cancel : (ws : List Wait) → live_ticks (cancel tick_handler ws) ≡ 0
live_ticks-cancel [] = refl
live_ticks-cancel (w ∷ ws) = ground (arith, live_ticks-cancel ws)

pub live_ticks-cancel_alarm :
    (p : ℕ) (ws : List Wait) → live_ticks (cancel (alarm_handler p) ws) ≡ live_ticks ws
live_ticks-cancel_alarm p [] = refl
live_ticks-cancel_alarm p (w ∷ ws) = ground (arith, live_ticks-cancel_alarm p ws)

pub waits_for-async_wait :
    (p q : ℕ) (ws : List Wait)
    → waits_for p (async_wait (alarm_handler q) ws) ≡ waits_for p ws + one_if (nat_beq q p)
waits_for-async_wait p q ws = ground (
  arith,
  count_if-append (waits_on (alarm_handler p)) ws
      (record { handler = alarm_handler q; cancelled = false } ∷ []),
)

pub waits_for-async_tick :
    (p : ℕ) (ws : List Wait) → waits_for p (async_wait tick_handler ws) ≡ waits_for p ws
waits_for-async_tick p ws = ground (
  arith,
  count_if-append (waits_on (alarm_handler p)) ws
      (record { handler = tick_handler; cancelled = false } ∷ []),
)

pub live_ticks-async_tick :
    (ws : List Wait) → live_ticks (async_wait tick_handler ws) ≡ live_ticks ws + 1
live_ticks-async_tick ws = ground (
  arith,
  count_if-append live_tick ws (record { handler = tick_handler; cancelled = false } ∷ []),
)

pub live_ticks-async_wait :
    (p : ℕ) (ws : List Wait) → live_ticks (async_wait (alarm_handler p) ws) ≡ live_ticks ws
live_ticks-async_wait p ws = ground (
  arith,
  count_if-append live_tick ws (record { handler = alarm_handler p; cancelled = false } ∷ []),
)

-- A wait is taken from the outstanding ones.
pub waits_for-take :
    (p : ℕ) (front back : List Wait) (w : Wait)
    → waits_for p (front ++ w ∷ back)
      ≡ waits_for p (front ++ back) + one_if (same_handler (alarm_handler p) w.handler)
waits_for-take p front back w = ground (
  arith,
  count_if-append (waits_on (alarm_handler p)) front (w ∷ back),
  count_if-append (waits_on (alarm_handler p)) front back,
)

pub live_ticks-take :
    (front back : List Wait) (w : Wait)
    → live_ticks (front ++ w ∷ back) ≡ live_ticks (front ++ back) + one_if (live_tick w)
live_ticks-take front back w =
    ground (arith, count_if-append live_tick front (w ∷ back), count_if-append live_tick front back)

pub alarms_at-add :
    (p : ℕ) (alarms : List Alarm) (a : Alarm)
    → alarms_at p (alarms ++ a ∷ []) ≡ alarms_at p alarms + one_if (nat_beq a.address p)
alarms_at-add p alarms a = ground (arith, count_if-append (is_at p) alarms (a ∷ []))

pub alarms_with-add :
    (i : ℕ) (alarms : List Alarm) (a : Alarm)
    → alarms_with i (alarms ++ a ∷ []) ≡ alarms_with i alarms + one_if (nat_beq a.id i)
alarms_with-add i alarms a = ground (arith, count_if-append (has_id i) alarms (a ∷ []))

module _ (lib : Archive) where
  pub alarms_at-pos :
      (p : ℕ) (alarms : List Alarm)
      → 0 < alarms_at p alarms
      → (a : Alarm) × (alarm_at lib p alarms ≡ some a) × (a.address ≡ p)
  unfolding alarm_at
  alarms_at-pos p [] h = absurd (omega arith)
  alarms_at-pos p (a ∷ alarms) h = elim (Bool-cases (nat_beq a.address p)) [
    | inl e ↦ (a, ground arith, ground arith)
    | inr e ↦ rw e (alarms_at-pos p alarms (ground arith))
  ]

  alarms_with-pos :
      (p : ℕ) (a : Alarm) (alarms : List Alarm)
      → alarm_at lib p alarms ≡ some a
      → 0 < alarms_with a.id alarms
  unfolding alarm_at
  alarms_with-pos p a [] h = cc
  alarms_with-pos p a (b ∷ alarms) h = ground (arith, alarms_with-pos p a alarms)

  -- An alarm is found by its id if no other has it.
  pub find_alarm_at :
      (p : ℕ) (a : Alarm) (alarms : List Alarm)
      → alarm_at lib p alarms ≡ some a
      → alarms_with a.id alarms ≤ 1
      → find_alarm lib a.id alarms ≡ some a
  unfolding alarm_at find_alarm
  find_alarm_at p a [] h u = cc
  find_alarm_at p a (b ∷ alarms) h u =
      ground (arith, alarms_with-pos p a alarms, find_alarm_at p a alarms)

  pub alarms_at-erase :
      (p q : ℕ) (alarms : List Alarm)
      → 0 < alarms_at p alarms
      → alarms_at q (erase_alarm lib p alarms) + one_if (nat_beq p q) ≡ alarms_at q alarms
  unfolding erase_alarm
  alarms_at-erase p q [] h = absurd (omega arith)
  alarms_at-erase p q (a ∷ alarms) h = ground (arith, alarms_at-erase p q alarms)

  pub alarms_with-erase :
      (p i : ℕ) (alarms : List Alarm)
      → alarms_with i (erase_alarm lib p alarms) ≤ alarms_with i alarms
  unfolding erase_alarm
  alarms_with-erase p i [] = omega arith
  alarms_with-erase p i (a ∷ alarms) = ground (arith, alarms_with-erase p i alarms)
