-- ===== src/Client/Events.antt =====
-- What a client of include/cercall/client.h does with an event.
use cercall.Base.{
  ℕ, ◌≡◌, ◌∙◌, none, some, String, List, [], ◌∷◌, ◌++◌, map, append_assoc, append-nil, string_eq,
  ==_refl,
}
use cercall.Base.Exec.{ok}
use cercall.Archive.{Archive}
use cercall.Serialization.{Serialization}
use cercall.Messenger.{strip_header}
use cercall.Client.State.{Client, UserCall, EventTy, plain_event, polymorphic_event, event_received}
use cercall.Client.Sending.{broadcast_func_name}
use cercall.Client.Receiving.{plain_events, moved_events, dispatch_event, dispatch, handle_message}

module _ {lib : Archive} (S : Serialization lib) (type_name : String) (max_calls : ℕ)
    (event_type : EventTy lib) where
  -- The calls of the listeners for an event that the first of them takes.
  abbrev pub taken : (t : lib.Ty) → lib.Val t → List ℕ → List (UserCall lib)
  taken t ev [] = []
  taken t ev (l ∷ ls) = event_received l t (some ev) ∷ map (λ l'. event_received l' t none) ls

  plain_events-received :
      (t : lib.Ty) (ev : lib.Val t) (ls : List ℕ) (c : Client lib)
      → plain_events S type_name max_calls event_type t ev ls c
        ≡ (ok tt, record c { calls = c.calls ++ map (λ l. event_received l t (some ev)) ls })
  unfolding plain_events
  plain_events-received t ev [] c = rw (append-nil c.calls)
  plain_events-received t ev (l ∷ ls) c =
      plain_events-received t ev ls
        (record c { calls = c.calls ++ event_received l t (some ev) ∷ [] })
      ∙ rw (append_assoc c.calls (event_received l t (some ev) ∷ []) _)

  moved_events-received :
      (t : lib.Ty) (ls : List ℕ) (c : Client lib)
      → moved_events S type_name max_calls event_type t none ls c
        ≡ (ok tt, record c { calls = c.calls ++ map (λ l. event_received l t none) ls })
  unfolding moved_events
  moved_events-received t [] c = rw (append-nil c.calls)
  moved_events-received t (l ∷ ls) c =
      moved_events-received t ls (record c { calls = c.calls ++ event_received l t none ∷ [] })
      ∙ rw (append_assoc c.calls (event_received l t none ∷ []) _)

  moved_events-first :
      (t : lib.Ty) (ev : lib.Val t) (ls : List ℕ) (c : Client lib)
      → moved_events S type_name max_calls event_type t (some ev) ls c
        ≡ (ok tt, record c { calls = c.calls ++ taken t ev ls })
  unfolding moved_events
  moved_events-first t ev [] c = rw (append-nil c.calls)
  moved_events-first t ev (l ∷ ls) c =
      moved_events-received t ls (record c { calls = c.calls ++ event_received l t (some ev) ∷ [] })
      ∙ rw (append_assoc c.calls (event_received l t (some ev) ∷ []) _)

module _ {lib : Archive} (S : Serialization lib) (type_name : String) (max_calls : ℕ)
    (t : lib.Ty) where
  -- A broadcast event of a plain type: every listener is called once with the event that was sent,
  -- in the order in which they were added.
  pub handle_message-plain_event :
      (ev : lib.Val t) (c : Client lib)
      → handle_message S type_name max_calls
          (plain_event t)
          (strip_header
            (S.serialize_event c.archives (broadcast_func_name S type_name max_calls) (t, ev)))
          c
        ≡ (
          ok tt,
          record c { calls = c.calls ++ map (λ l. event_received l t (some ev)) c.event_listeners },
        )
  unfolding handle_message dispatch dispatch_event
  handle_message-plain_event ev c =
      let (image, named, read) =
        S.deserialize_event-serialize_event c.archives (broadcast_func_name S type_name max_calls) t
          ev in
      rw named (
        rw (==_refl (broadcast_func_name S type_name max_calls)) (
          rw read
            (plain_events-received S type_name max_calls (plain_event t) t ev c.event_listeners c)))

  -- A broadcast event of a polymorphic type: the listener that was added first is called with the
  -- event that was sent, and every listener after it with a null pointer.
  pub handle_message-polymorphic_event :
      (ev : lib.Val t) (c : Client lib)
      → handle_message S type_name max_calls
          (polymorphic_event t)
          (strip_header
            (S.serialize_event c.archives (broadcast_func_name S type_name max_calls) (t, ev)))
          c
        ≡ (
          ok tt,
          record c {
            calls =
                c.calls ++ taken S type_name max_calls (polymorphic_event t) t ev c.event_listeners;
          },
        )
  unfolding handle_message dispatch dispatch_event
  handle_message-polymorphic_event ev c =
      let (image, named, read) =
        S.deserialize_event-serialize_event c.archives (broadcast_func_name S type_name max_calls) t
          ev in
      rw named (
        rw (==_refl (broadcast_func_name S type_name max_calls)) (
          rw read (
            moved_events-first S type_name max_calls (polymorphic_event t) t ev c.event_listeners
              c)))
