-- ===== src/Clock/Expiry.antt =====
-- What the handler of an alarm of examples/cerclock/clockservice.cpp does.
use cercall.Base.{
  ℕ, ◌+◌, ◌^◌, ◌<◌, ◌≡◌, refl, subst, ap, ◌∙◌, true, false, none, some, List, [], ◌∷◌, ◌++◌,
  nat_beq, if◌then◌else◌, arith, Bool-cases, inl, inr,
}
use cercall.Base.Exec.{ok, undefined, ◌>>◌}
use cercall.Error.{System, ErrorCode}
use cercall.Archive.{Archive}
use cercall.Serialization.{Serialization}
use cercall.Service.{Service, broadcast_event}
use cercall.Clock.State.{
  Alarm, alarm_handler, Wait, ClockTypes, alarm_event, event_arg, ClockService, alarm_at,
  find_alarm, erase_alarm, the_alarm,
}
use cercall.Clock.Functions.{interface_name}
use cercall.Clock.Timers.{not_aborted, broadcast_alarm, purge_alarm, alarm_expired}
use cercall.Clock.Alarms.{one_if, alarms_at}
use cercall.Clock.Steps.{Reach, IsNew}
use cercall.Clock.Sound.{
  Matches, no_handler, Matches-take, purged, running_alarm, alarm_expired-aborted,
  alarm_expired-found,
}
use cercall.Clock.Reachable.{Reach-SoundAt}

module _ {lib : Archive} (S : Serialization lib) (sys : System) (types : ClockTypes lib)
    (new : ClockService lib) (n p : ℕ) (c : ClockService lib) (front back : List Wait) (w : Wait)
    (ec : ErrorCode) where
  taken-Matches :
      IsNew new
      → Reach S sys types new n c
      → n + 1 < 2 ^ 32
      → c.waits ≡ front ++ w ∷ back
      → w.handler ≡ alarm_handler p
      → Matches (n + 1) (λ q. one_if (nat_beq p q)) c.alarms (front ++ back)
  taken-Matches start r bound q at =
      let (e, m) = Reach-SoundAt S sys types new n c start r bound in
      Matches-take (n + 1) p c.alarms front back w (subst (Matches (n + 1) no_handler c.alarms) q m)
        at

  -- In a clock that a new one has come to by steps that set fewer than 2 ^ 32 - 1 alarms, the wait of
  -- an alarm's handler completes because the alarm's timer was cancelled. The alarm is in the list,
  -- and is the one that is found by its id; the handler returns, has broadcast nothing and has
  -- purged that alarm, and nothing else changes but the wait.
  pub alarm_expired-cancelled :
      IsNew new
      → Reach S sys types new n c
      → n + 1 < 2 ^ 32
      → c.waits ≡ front ++ w ∷ back
      → w.handler ≡ alarm_handler p
      → not_aborted sys ec ≡ false
      → (a : Alarm) × (alarm_at lib p c.alarms ≡ some a)
        × (find_alarm lib a.id c.alarms ≡ some a)
        × (alarm_expired S sys types p ec (record c { waits = front ++ back })
            ≡ (ok tt, purged p (record c { waits = front ++ back })))
  alarm_expired-cancelled start r bound q at aborted =
      let (a, there, found, e) =
        running_alarm p (record c { waits = front ++ back }) (n + 1)
          (taken-Matches start r bound q at) in
      (
        a,
        there,
        found,
        alarm_expired-aborted S sys types p a ec (record c { waits = front ++ back }) there found e
            aborted,
      )

  -- In a clock that a new one has come to by steps that set fewer than 2 ^ 32 - 1 alarms, the wait of
  -- the handler of the alarm `a` completes, and not because its timer was cancelled. The event with
  -- the id and the tag of `a` is broadcast; if that returns, leaving the service `s`, then the
  -- handler returns, has purged that alarm, and nothing else changes but the service and the wait.
  pub alarm_expired-fired :
      (a : Alarm) (s : Service lib)
      → IsNew new
      → Reach S sys types new n c
      → n + 1 < 2 ^ 32
      → c.waits ≡ front ++ w ∷ back
      → w.handler ≡ alarm_handler p
      → alarm_at lib p c.alarms ≡ some a
      → not_aborted sys ec ≡ true
      → broadcast_event S sys interface_name (event_arg types (alarm_event a.id a.tag)) c.service
        ≡ (ok tt, s)
      → alarm_expired S sys types p ec (record c { waits = front ++ back })
        ≡ (ok tt, purged p (record c { waits = front ++ back; service = s }))
  alarm_expired-fired a s start r bound q at here fired sent =
      let (b, there, found, e) =
        running_alarm p (record c { waits = front ++ back }) (n + 1)
          (taken-Matches start r bound q at) in
      let same : b ≡ a = cc in
      alarm_expired-found S sys types p a a ec (record c { waits = front ++ back }) s here
        (subst (λ x. find_alarm lib x.id c.alarms ≡ some x) same found) fired sent
      ∙ ap (λ x. (ok tt, purged x (record c { waits = front ++ back; service = s })))
          (subst (λ x. x.address ≡ p) same e)

alarm_at-none :
    (lib : Archive) (p : ℕ) (alarms : List Alarm)
    → alarms_at p alarms ≡ 0
    → alarm_at lib p alarms ≡ none
unfolding alarm_at
alarm_at-none lib p [] h = refl
alarm_at-none lib p (a ∷ alarms) h = ground (arith, alarm_at-none lib p alarms)

module _ {lib : Archive} (S : Serialization lib) (sys : System) (types : ClockTypes lib) where
  alarm_expired-destroyed :
      (p : ℕ) (ec : ErrorCode) (c : ClockService lib)
      → alarm_at lib p c.alarms ≡ none
      → (alarm_expired S sys types p ec c).0 ≡ undefined
  unfolding alarm_expired broadcast_alarm purge_alarm the_alarm
  alarm_expired-destroyed p ec c gone = elim (Bool-cases (not_aborted sys ec)) [
    | inl fired ↦ rw (fired, if◌then◌else◌) (rw gone refl)
    | inr aborted ↦ rw (aborted, if◌then◌else◌) (rw gone refl)
  ]

  -- The first two alarms of the list share an id, as they do when 2 ^ 32 alarms have been set since
  -- the first, and have addresses of their own; no other alarm is at the address of the first. The
  -- handler of the second, if its broadcast returns, purges the first, and then that of the first
  -- reads an alarm that has been destroyed.
  pub alarm_expired-same_id :
      (a b : Alarm) (rest : List Alarm) (ec ec' : ErrorCode) (c : ClockService lib)
      (s : Service lib)
      → c.alarms ≡ a ∷ b ∷ rest
      → a.id ≡ b.id
      → nat_beq a.address b.address ≡ false
      → alarms_at a.address rest ≡ 0
      → not_aborted sys ec ≡ true
      → broadcast_event S sys interface_name (event_arg types (alarm_event b.id b.tag)) c.service
        ≡ (ok tt, s)
      → ((alarm_expired S sys types b.address ec >> alarm_expired S sys types a.address ec') c).0
        ≡ undefined
  unfolding alarm_at find_alarm erase_alarm
  alarm_expired-same_id a b rest ec ec' c s q e apart gone fired sent =
      rw
        (alarm_expired-found S sys types b.address b a ec c s (rw q (ground arith))
          (rw q (ground arith)) fired sent)
        (alarm_expired-destroyed a.address ec' (purged a.address (record c { service = s }))
          (rw q (ground (arith, alarm_at-none lib a.address rest))))
