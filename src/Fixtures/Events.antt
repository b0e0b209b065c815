-- ===== src/Fixtures/Events.antt =====
-- The services of unittests/eventstestserver.cpp, and the events of polyeventsourceinterface.h and
-- simpleeventsourceinterface.h. A wait on the timer of a service is the network library's; the model
-- records the outstanding ones, by whether each has been cancelled since.
use cercall.Base.{
  ◌≡◌, refl, ap, ◌∙◌, Bool, true, false, ◌&&◌, Option, none, some, String, List, [], ◌∷◌, ◌++◌, map,
  if◌then◌else◌,
}
use cercall.Base.Exec.{Exec, pure, gets, modify, ◌>>=◌, ◌>>◌}
use cercall.Base.Int.{ℤ}
use cercall.Error.{System, ErrorCode}
use cercall.Archive.{Archive, Arg}
use cercall.Serialization.{Serialization}
use cercall.Service.{Service, broadcast_event}
use cercall.Clock.{not_aborted}

-- `SimpleEventSourceInterface::EventType`
pub data SimpleEvent : Type 0 where
  no_event event_one event_two event_three : SimpleEvent

abbrev pub is_event : SimpleEvent → Bool
is_event no_event = false
is_event _ = true

-- The classes derived from `EventBase`. `RealEventClassThree` derives from `RealEventClassTwo`, and
-- has its `myEventData`.
pub data PolyEvent : Type 0 where
  event_base : PolyEvent
  real_event_class_one : String → PolyEvent
  real_event_class_two : ℤ → PolyEvent
  real_event_class_three : ℤ → List (String × ℤ) → PolyEvent

-- `get_as<RealEventClassOne>()` and so on: the object's data, if it is of the class or of one derived
-- from it.
unfoldable pub as_one : PolyEvent → Option String
as_one (real_event_class_one eventData) = some eventData
as_one _ = none

unfoldable pub as_two : PolyEvent → Option ℤ
as_two (real_event_class_two eventData) = some eventData
as_two (real_event_class_three eventData eventDict) = some eventData
as_two _ = none

unfoldable pub as_three : PolyEvent → Option (List (String × ℤ))
as_three (real_event_class_three eventData eventDict) = some eventDict
as_three _ = none

-- A service of events of the type `E`, and the event that it has been asked for.
pub record EventSource (lib : Archive) (E : Type 0) : Type 0 where
  pub service : Service lib
  pub enabled_event : E
  pub waits : List Bool

module _ {lib : Archive} {E : Type 0} where
  abbrev pub on_service : {A : Type 0} → Exec (Service lib) A → Exec (EventSource lib E) A
  on_service m c = let (o, s) = m c.service in (o, record c { service = s })

  -- `expires_from_now`, which cancels, and `async_wait`.
  start_timer : Exec (EventSource lib E) (Unit {0})
  start_timer = modify (λ c. record c { waits = map (λ w. true) c.waits ++ false ∷ [] })

  unfoldable pub trigger : (E → Bool) → E → Exec (EventSource lib E) (Unit {0})
  unfolding start_timer
  trigger present e = do
    modify (λ c. record c { enabled_event = e })
    if present e then start_timer else pure tt

-- `SimpleEventSourceService::trigger_single_broadcast`
unfoldable pub trigger_simple :
    {lib : Archive} → SimpleEvent → Exec (EventSource lib SimpleEvent) (Unit {0})
unfolding trigger
trigger_simple et = trigger is_event et

abbrev is_present : Option PolyEvent → Bool
is_present none = false
is_present (some e) = true

-- `PolyEventSourceService::trigger_single_broadcast`
unfoldable pub trigger_poly :
    {lib : Archive} → Option PolyEvent → Exec (EventSource lib (Option PolyEvent)) (Unit {0})
unfolding trigger
trigger_poly e = trigger is_present e

-- The event that a tick is to broadcast for the one that it was asked for: one of its own class with
-- the data of that class, and none for an event of the base class.
pub data IsCopy (junk : ℤ) : PolyEvent → Option PolyEvent → Type 0 where
  copy_base : IsCopy junk event_base none
  copy_one : (d : String) → IsCopy junk (real_event_class_one d) (some (real_event_class_one d))
  copy_two : (d : ℤ) → IsCopy junk (real_event_class_two d) (some (real_event_class_two d))
  copy_three :
      (d : ℤ) (m : List (String × ℤ))
      → IsCopy junk (real_event_class_three d m) (some (real_event_class_three junk m))

-- Every event has such a copy.
event-IsCopy : (junk : ℤ) (e : PolyEvent) → (o : Option PolyEvent) × IsCopy junk e o
event-IsCopy junk event_base = (none, copy_base)
event-IsCopy junk (real_event_class_one d) = (_, copy_one d)
event-IsCopy junk (real_event_class_two d) = (_, copy_two d)
event-IsCopy junk (real_event_class_three d m) = (_, copy_three d m)

module _ {lib : Archive} (S : Serialization lib) (sys : System) (simple_arg : SimpleEvent → Arg lib)
    (poly_arg : PolyEvent → Arg lib) where
  -- `SimpleEventSourceService::tickTimer`
  unfoldable pub simple_tick : ErrorCode → Exec (EventSource lib SimpleEvent) (Unit {0})
  simple_tick ec = do
    enabled ← gets (λ c. c.enabled_event)
    if not_aborted sys ec && is_event enabled
        then on_service (broadcast_event S sys "SimpleEventSourceInterface" (simple_arg enabled))
        else pure tt

  broadcast_poly : PolyEvent → Exec (EventSource lib (Option PolyEvent)) (Unit {0})
  broadcast_poly e = on_service (broadcast_event S sys "PolyEventSourceInterface" (poly_arg e))

  -- The three tests of `tickTimer`, in their order. The constructor of `RealEventClassThree` from a
  -- dictionary leaves the `myEventData` of its base class as the memory has it, here `junk`.
  rebroadcast :
      ℤ
      → Option String
      → Option (List (String × ℤ))
      → Option ℤ
      → Exec (EventSource lib (Option PolyEvent)) (Unit {0})
  unfolding broadcast_poly
  rebroadcast junk (some eventData) three two = broadcast_poly (real_event_class_one eventData)
  rebroadcast junk none (some eventDict) two =
      broadcast_poly (real_event_class_three junk eventDict)
  rebroadcast junk none none (some eventData) = broadcast_poly (real_event_class_two eventData)
  rebroadcast junk none none none = pure tt

  tick_enabled : ℤ → Option PolyEvent → Exec (EventSource lib (Option PolyEvent)) (Unit {0})
  unfolding rebroadcast
  tick_enabled junk none = pure tt
  tick_enabled junk (some e) = rebroadcast junk (as_one e) (as_three e) (as_two e)

  -- `PolyEventSourceService::tickTimer`
  unfoldable pub poly_tick : ℤ → ErrorCode → Exec (EventSource lib (Option PolyEvent)) (Unit {0})
  unfolding tick_enabled
  poly_tick junk ec = do
    enabled ← gets (λ c. c.enabled_event)
    if not_aborted sys ec then tick_enabled junk enabled else pure tt

  pub broadcast_copy : Option PolyEvent → Exec (Service lib) (Unit {0})
  broadcast_copy none = pure tt
  broadcast_copy (some e) = broadcast_event S sys "PolyEventSourceInterface" (poly_arg e)

  rebroadcast-broadcast_copy :
      (junk : ℤ) (e : PolyEvent) (o : Option PolyEvent) (c : EventSource lib (Option PolyEvent))
      → IsCopy junk e o
      → rebroadcast junk (as_one e) (as_three e) (as_two e) c ≡ on_service (broadcast_copy o) c
  unfolding rebroadcast broadcast_poly as_one as_two as_three broadcast_copy
  rebroadcast-broadcast_copy junk e o c copy_base = refl
  rebroadcast-broadcast_copy junk e o c (copy_one d) = refl
  rebroadcast-broadcast_copy junk e o c (copy_two d) = refl
  rebroadcast-broadcast_copy junk e o c (copy_three d m) = refl

  -- The timer of the polymorphic service ticks, not because it was cancelled, when the service has
  -- been asked for the event `e`. What the tick does is to broadcast one event of the very class of
  -- `e`, with the data of that class, or nothing if `e` is of the base class; the data that an event
  -- of the third class has from the second is what the memory holds.
  pub poly_tick-IsCopy :
      (junk : ℤ) (ec : ErrorCode) (e : PolyEvent) (c : EventSource lib (Option PolyEvent))
      → c.enabled_event ≡ some e
      → not_aborted sys ec ≡ true
      → (o : Option PolyEvent) × IsCopy junk e o
        × (poly_tick junk ec c ≡ on_service (broadcast_copy o) c)
  unfolding poly_tick tick_enabled
  poly_tick-IsCopy junk ec e c enabled fired =
      let (o, copy) = event-IsCopy junk e in
      (
        o,
        copy,
        rw (fired, if◌then◌else◌)
            (ap (λ x. tick_enabled junk x c) enabled ∙ rebroadcast-broadcast_copy junk e o c copy),
      )
