-- ===== src/Service/Closings.antt =====
-- What the writes and the closes of the service of include/cercall/service.h do to the transports of
-- its clients: a transport that closes is heard of, and its client is gone.
use cercall.Base.{ℕ, ◌≡◌, refl, List, [], ◌∷◌, lookup, nat_eq, Option-cases, ◌⊎◌, inl, inr}
use cercall.Base.Exec.{Exec, ok, pure, ◌>>=◌}
use cercall.Base.Keeps.{Keeps, Keeps-after, Keeps-bind, Keeps-then, Keeps-pure}
use cercall.Archive.{Archive, Bytes}
use cercall.Transport
use cercall.Transport.{Transport, opened, Notification, disconnected}
use cercall.Messenger.{write_message_with_header, write_message_with_header-IsLoud}
use cercall.Service.State.{
  Service, on_transport, on_disconnected, notify_closed, write, close_transport,
}
use cercall.Service.Served.{
  IsSound, IsSoundBut, IsHeard, IsSoundBut-IsSound, placed, placed-IsSound, placed-IsSoundBut,
  on_transport-stranger, on_disconnected-IsSoundBut, on_disconnected-IsSound,
}

module _ {lib : Archive} where
  -- An operation of a transport and what the service does with its result, which makes up for a
  -- transport that is not open afterwards.
  pub deliver-IsSound :
      {A B : Type 0} (p : ℕ) (m : Exec Transport A) (f : A → Exec (Service lib) B)
      → ((a : A) → Keeps IsSound (f a))
      → ((t : Transport)
          → IsHeard t
          → IsHeard (m t).1
            ⊎ ((a : A) × ((m t).0 ≡ ok a)
                × ((s : Service lib) → IsSoundBut p s → IsSound (f a s).1)))
      → Keeps IsSound (on_transport lib p m >>= f)
  unfolding on_transport
  deliver-IsSound p m f k w = record {
    at = λ s h. elim (Option-cases (lookup p s.clients)) [
      | inl e ↦ Keeps-after (on_transport lib p m) f s (on_transport-stranger p m s e h) k
      | inr (cs, e) ↦
          let (t, at, o, l) = h.served p cs e in
          let but = placed-IsSoundBut p (m t).1 s (IsSoundBut-IsSound p s h) in
          elim (w t (o, l)) [
            | inl heard ↦
                Keeps-after (on_transport lib p m) f s
                  (rw at (placed-IsSound p (m t).1 s (λ _ _ _ _ _. heard) h)) k
            | inr (a, done, mends) ↦ rw (at, done) (mends (placed p (m t).1 s) but)
          ]
    ];
  }

  notify_closed-IsSound :
      (p : ℕ) (notes : List Notification) → Keeps IsSound (notify_closed lib p notes)
  unfolding notify_closed
  notify_closed-IsSound p [] = Keeps-pure tt
  notify_closed-IsSound p (_ ∷ notes) =
      Keeps-bind _ _ (on_disconnected-IsSound p) (λ _. notify_closed-IsSound p notes)

  notify_closed-IsSoundBut :
      (p : ℕ) (s : Service lib)
      → IsSoundBut p s
      → IsSound (notify_closed lib p (disconnected ∷ []) s).1
  unfolding notify_closed
  notify_closed-IsSoundBut p s h =
      Keeps-after (on_disconnected lib p) (λ _. notify_closed lib p []) s
        (on_disconnected-IsSoundBut p s h) (λ _. notify_closed-IsSound p [])

  pub close_transport-IsSound : (p : ℕ) → Keeps IsSound (close_transport lib p)
  unfolding close_transport Transport.close
  close_transport-IsSound p =
      deliver-IsSound p _ (notify_closed lib p) (notify_closed-IsSound p)
        (λ t (o, l). rw (o, l) (inr (disconnected ∷ [], refl, notify_closed-IsSoundBut p)))

  pub write-IsSound : (p : ℕ) (msg : Bytes) → Keeps IsSound (write lib p msg)
  unfolding write
  write-IsSound p msg =
      deliver-IsSound p (write_message_with_header msg) _
        (λ (e, notes). Keeps-then _ _ (notify_closed-IsSound p notes) (Keeps-pure e))
        (λ t heard. elim (write_message_with_header-IsLoud msg t heard) [
          | inl still ↦ inl still
          | inr (e, done) ↦ inr (
            (e, disconnected ∷ []),
            done,
            λ s h.
                Keeps-after {P = IsSound} (notify_closed lib p (disconnected ∷ [])) (λ _. pure e) s
                  (notify_closed-IsSoundBut p s h) (λ _. Keeps-pure e),
          )
        ])
