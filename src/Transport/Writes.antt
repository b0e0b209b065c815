-- ===== src/Transport/Writes.antt =====
-- What `write` and `handle_recv` of include/cercall/asio/basicstreamtransport.h do on each branch.
use cercall.Base.{
  ℕ, ◌≡◌, refl, none, true, false, List, [], ◌∷◌, ◌++◌, arith, ◌⊎◌, inl, inr, nat_beq, nat_beq_iff,
  ap, if◌then◌else◌, Bool-cases,
}
use cercall.Base.Exec.{ok}
use cercall.Base.Int.{ℤ, pos, negsuc, is_zero}
use cercall.Error.{Error, ErrorCode, System, is_error, of_error_code}
use cercall.Archive.{Bytes}
use cercall.Transport.States.{received}
use cercall.Transport.{
  Transport, opened, closed, disconnected, connection_error, write, is_open, handle_recv,
  fill_buffer, finish_recv, is_recoverable,
}

-- What a caller may conclude from the error that `write` returns.
pub record Reported (msg : Bytes) (t : Transport) (e : Error) (t' : Transport) : Type 0 where
  pub success :
      is_error e ≡ false → (t.state ≡ opened) × (t'.state ≡ opened) × (t'.sent ≡ t.sent ++ msg ∷ [])
  pub failure : is_error e ≡ true → (is_open t' ≡ false) × (t'.sent ≡ t.sent)

write-Reported_by :
    (msg : Bytes) (results : List ErrorCode) (t : Transport)
    → t.write_results ≡ results
    → Reported msg t (write msg t).0 (write msg t).1
unfolding write
write-Reported_by msg [] t e = record { success = λ h. ground arith; failure = λ h. ground arith }
write-Reported_by msg (ec ∷ rest) t e = record {
  success = λ h. ground arith;
  failure = λ h. ground arith;
}

-- If `write` returns no error, the transport was open, is open still, and the socket has taken the
-- whole message behind the earlier ones; if it returns an error, the transport is not open
-- afterwards and nothing more counts as sent.
pub write-Reported : (msg : Bytes) (t : Transport) → Reported msg t (write msg t).0 (write msg t).1
write-Reported msg t = write-Reported_by msg t.write_results t refl

received-error :
    (sys : System) (ec : ErrorCode) (n : ℕ) (t : Transport)
    → is_zero ec.value ≡ false
    → t.state ≡ opened
    → t.has_listener ≡ true
    → received sys ec n t ≡ (
        if is_recoverable ec.value then (ok (connection_error (of_error_code ec) ∷ []), t) else (
          ok (connection_error (of_error_code ec) ∷ disconnected ∷ []),
          record t { state = closed },
        ))
unfolding handle_recv finish_recv of_error_code
received-error sys ec n t z o l = ground arith

-- EINTR is 4, and EAGAIN and EWOULDBLOCK are 11.
recoverable_code : (v : ℤ) → is_recoverable v ≡ true → (v ≡ pos 4) ⊎ (v ≡ pos 11)
unfolding is_recoverable
recoverable_code (pos n) r = elim (Bool-cases (nat_beq n 4)) [
  | inl e ↦ inl (ap pos ((nat_beq_iff n 4).0 e))
  | inr e ↦ inr (ap pos ((nat_beq_iff n 11).0 (ground arith)))
]
recoverable_code (negsuc n) r = absurd (ground arith)

fatal_code : (v : ℤ) → is_recoverable v ≡ false → (¬ (v ≡ pos 4)) × (¬ (v ≡ pos 11))
unfolding is_recoverable
fatal_code v r = (λ e. is_true (rw e at r), λ e. is_true (rw e at r))
  where
    is_true : true ≡ false → ⊥
    is_true e = cc

-- The read of an open transport with a listener fails, and the listener returns. If the error number
-- is 4 or 11, which are EINTR, EAGAIN and EWOULDBLOCK on Linux, the listener hears of the error
-- alone, and the transport stays open; with any other number the listener hears of the error and
-- then of a disconnection, and the transport is closed. In both cases no read is in progress.
pub handle_recv-error :
    (sys : System) (ec : ErrorCode) (bytes : Bytes) (n : ℕ) (t : Transport)
    → is_zero ec.value ≡ false
    → t.state ≡ opened
    → t.has_listener ≡ true
    → let (outcome, t') = received sys ec n (fill_buffer bytes t) in
      let error = connection_error (of_error_code ec) in
      (t'.requested ≡ none)
      × ((((ec.value ≡ pos 4) ⊎ (ec.value ≡ pos 11))
            × (outcome ≡ ok (error ∷ []))
            × (t'.state ≡ opened))
          ⊎ ((¬ (ec.value ≡ pos 4))
              × (¬ (ec.value ≡ pos 11))
              × (outcome ≡ ok (error ∷ disconnected ∷ []))
              × (t'.state ≡ closed)))
unfolding fill_buffer
handle_recv-error sys ec bytes n t z o l = elim (Bool-cases (is_recoverable ec.value)) [
  | inl r ↦
      rw (received-error sys ec n (record t { buffer = bytes; requested = none }) z o l, r)
        (refl, inl (recoverable_code ec.value r, refl, o))
  | inr r ↦
      let (eintr, eagain) = fatal_code ec.value r in
      rw (received-error sys ec n (record t { buffer = bytes; requested = none }) z o l, r)
        (refl, inr (eintr, eagain, refl, refl))
]
