-- ===== src/Service/Receives.antt =====
-- What the service of include/cercall/service.h does with what it receives leaves its clients served.
use cercall.Base.{
  ℕ, ◌||◌, ◌≡◌, refl, String, List, [], ◌∷◌, lookup, lookup-insert, nat_eq, ◌==◌, Bool-cases,
  Option-cases, ◌⊎◌, inl, inr,
}
use cercall.Base.Exec.{ok, modify, ◌>>=◌}
use cercall.Base.Int.{is_zero}
use cercall.Base.Keeps.{Keeps, Keeps-after, Keeps-bind}
use cercall.Archive.{Archive, Bytes, ResultTy, ResultVal}
use cercall.Error.{ErrorCode, System}
use cercall.Result.{Result}
use cercall.Serialization.{Serialization}
use cercall.Transport
use cercall.Transport.{
  Transport, Notification, disconnected, connection_error, new, opened, new_transport,
}
use cercall.Messenger.{Messenger, start_read}
use cercall.Service.State.{Service, on_disconnected, on_transport}
use cercall.Service.Dispatch.{call_closure, dispatch_func}
use cercall.Service.Clients.{service_channel, notify_all, read_completed, transport_of}
use cercall.Service.Keeps.Calls.{call_closure-Keeps, dispatch_func-Keeps}
use cercall.Service.Keeps.Operations.{KeepsParts, notify_all-Keeps}
use cercall.Service.Served.{
  IsSound, IsSoundBut, IsHeard, placed-IsSound, on_transport-IsSound, on_disconnected-IsSoundBut,
  on_disconnected-IsSound, same_number,
}
use cercall.Service.Closings.{deliver-IsSound, close_transport-IsSound, write-IsSound}

module _ {lib : Archive} (S : Serialization lib) (sys : System) (type_name : String) where
  dispatch_func-IsSound :
      (p : ℕ) (f : String) (args : Bytes) → Keeps IsSound (dispatch_func S sys p f args)
  dispatch_func-IsSound =
      dispatch_func-Keeps S sys IsSound write-IsSound
        (λ f p s h. record { own = h.own; served = h.served })
        (λ f p s e h. record { own = h.own; served = h.served })

  pub call_closure-IsSound :
      (p : ℕ) (f : String) (r : ResultTy lib) (res : Result (ResultVal lib r))
      → Keeps IsSound (call_closure S sys p f r res)
  call_closure-IsSound =
      call_closure-Keeps S sys IsSound write-IsSound
        (λ f p s h. record { own = h.own; served = h.served })
        (λ f p s e h. record { own = h.own; served = h.served })

  start_read-IsSound :
      (p n : ℕ) (s : Service lib)
      → IsSound s
      → IsSound (start_read (service_channel S sys type_name p) n s)
  unfolding service_channel Transport.read
  start_read-IsSound p n s h =
      placed-IsSound p (Transport.read n (transport_of S sys type_name (lookup p s.transports))) s
        (λ cs t c at heard. rw at heard) h

  set_messenger-IsSound :
      (p : ℕ) (m : Messenger) (s : Service lib)
      → IsSound s
      → IsSound ((service_channel S sys type_name p).set_messenger m s)
  unfolding service_channel
  set_messenger-IsSound p m s h = elim (Option-cases (lookup p s.clients)) [
    | inl e ↦ rw e h
    | inr (cs, e) ↦ rw e (record {
      own = h.own;
      served = λ q cs' c. elim (Bool-cases (p == q)) [
        | inl same ↦ h.served q cs (rw⁻¹ (same_number p q same) e)
        | inr differs ↦
            h.served q cs'
              (rw (lookup-insert p q (record cs { messenger = m }) s.clients, differs) at c)
      ];
    })
  ]

  pub parts-IsSound : KeepsParts S sys type_name IsSound
  parts-IsSound = record {
    writes = write-IsSound;
    closes = close_transport-IsSound;
    disconnects = on_disconnected-IsSound;
    dispatches = dispatch_func-IsSound;
    sets_acceptor = λ a s h. record { own = h.own; served = h.served };
    sets_messenger = set_messenger-IsSound;
    starts_read = start_read-IsSound;
  }

  notify_all-IsSound :
      (p : ℕ) (notes : List Notification) → Keeps IsSound (notify_all S sys type_name p notes)
  notify_all-IsSound = notify_all-Keeps S sys type_name IsSound parts-IsSound

  notify_all-IsSoundBut :
      (p : ℕ) (s : Service lib)
      → IsSoundBut p s
      → IsSound (notify_all S sys type_name p (disconnected ∷ []) s).1
  unfolding notify_all
  notify_all-IsSoundBut p s h =
      Keeps-after {P = IsSound} (on_disconnected lib p) (λ _. notify_all S sys type_name p []) s
        (on_disconnected-IsSoundBut p s h) (λ _. notify_all-IsSound p [])

  handle_recv-Heard :
      (ec : ErrorCode) (n : ℕ) (t : Transport)
      → IsHeard t
      → IsHeard (Transport.handle_recv sys ec n t).1
  unfolding Transport.handle_recv
  handle_recv-Heard ec n t (o, l) = elim (Bool-cases (is_zero ec.value)) [
    | inl z ↦ rw (z, o, l) (refl, refl)
    | inr z ↦ rw (z, o, l) (refl, refl)
  ]

  finish_recv-Heard :
      (ec : ErrorCode) (t : Transport)
      → IsHeard t
      → IsHeard (Transport.finish_recv ec t).1
        ⊎ ((Transport.finish_recv ec t).0 ≡ ok (disconnected ∷ []))
  unfolding Transport.finish_recv Transport.close
  finish_recv-Heard ec t (o, l) =
      elim (Bool-cases (is_zero ec.value || Transport.is_recoverable ec.value)) [
        | inl z ↦ rw (z, o, l) (inl (refl, refl))
        | inr z ↦ rw (z, o, l) (inr refl)
      ]

  finish_recv-IsSound :
      (p : ℕ) (ec : ErrorCode)
      → Keeps IsSound
          (on_transport lib p (Transport.finish_recv ec) >>= notify_all S sys type_name p)
  finish_recv-IsSound p ec =
      deliver-IsSound p (Transport.finish_recv ec) (notify_all S sys type_name p)
        (notify_all-IsSound p)
        (λ t heard. elim (finish_recv-Heard ec t heard) [
          | inl still ↦ inl still
          | inr done ↦ inr (disconnected ∷ [], done, notify_all-IsSoundBut p)
        ])

  pub read_completed-IsSound :
      (p : ℕ) (ec : ErrorCode) (bytes : Bytes) (n : ℕ)
      → Keeps IsSound (read_completed S sys type_name p ec bytes n)
  unfolding read_completed Transport.fill_buffer
  read_completed-IsSound p ec bytes n =
      Keeps-bind _ _
        (on_transport-IsSound p (modify (Transport.fill_buffer bytes)) (λ t heard. heard))
        (λ _.
          Keeps-bind _ _
            (on_transport-IsSound p (Transport.handle_recv sys ec n) (handle_recv-Heard ec n))
            (λ notes. Keeps-bind _ _ (notify_all-IsSound p notes) (λ _. finish_recv-IsSound p ec)))
