-- ===== src/Messenger/Writing.antt =====
-- `Messenger::write_message_with_header` of include/cercall/details/messenger.h.
use cercall.Base.{
  ◌-◌, ◌≤◌, ◌≡◌, true, false, some, List, [], ◌∷◌, ◌++◌, length, arith, refl, ◌⊎◌, inl, inr,
  Bool-cases,
}
use cercall.Base.Exec.{
  Outcome, ok, throws, aborts, undefined, out_of_fuel, Exec, lift, continue, ◌>>=◌,
}
use cercall.Error.{Error, ErrorCode, no_error, of_error_code}
use cercall.Base.Int.{is_zero}
use cercall.Archive.{Bytes}
use cercall.Transport
use cercall.Transport.{Transport, Notification, opened, closed, disconnected}
use cercall.Messenger.Header.{
  size_max, size_bytes, reserve_message_header, fill_header, fill_header_body,
}

write_message : Bytes → Exec Transport (Error × List Notification)
write_message msg t = let (e, t', notes) = Transport.write msg t in (ok (e, notes), t')

unfoldable pub write_message_with_header : Bytes → Exec Transport (Error × List Notification)
unfolding write_message
write_message_with_header msg = do full ← lift (fill_header msg); write_message full

-- A message of a size that its header can hold goes to an open socket that takes it, whole and with
-- the size of its body in front.
pub write_message_with_header_sent :
    (body : Bytes) (t : Transport)
    → length body ≤ size_max - 8
    → t.state ≡ opened
    → t.write_results ≡ []
    → write_message_with_header (reserve_message_header ++ body) t
      ≡ (ok (no_error, []), record t { sent = t.sent ++ (size_bytes (length body) ++ body) ∷ [] })
unfolding write_message_with_header Transport.write
write_message_with_header_sent body t h o r = rw (fill_header_body body h) (ground arith)

-- A message that the socket refuses closes the transport, which says so to its listener.
pub write_message_with_header_failed :
    (body : Bytes) (ec : ErrorCode) (later : List ErrorCode) (t : Transport)
    → length body ≤ size_max - 8
    → t.state ≡ opened
    → t.has_listener ≡ true
    → t.write_results ≡ ec ∷ later
    → is_zero ec.value ≡ false
    → write_message_with_header (reserve_message_header ++ body) t ≡ (
      ok (of_error_code ec, disconnected ∷ []),
      record t { write_results = later; state = closed },
    )
unfolding write_message_with_header Transport.write
write_message_with_header_failed body ec later t h o l r z =
    rw (fill_header_body body h) (ground arith)

abbrev IsHeard : Transport → Type 0
IsHeard t = (t.state ≡ opened) × (t.has_listener ≡ true)

-- A write leaves the transport open, or says that it is disconnected.
abbrev IsLoud : Outcome (Error × List Notification) × Transport → Type 0
IsLoud r = IsHeard r.1 ⊎ ((e : Error) × (r.0 ≡ ok (e, disconnected ∷ [])))

write_message-IsLoud :
    (full : Bytes) (results : List ErrorCode) (t : Transport)
    → t.write_results ≡ results
    → IsHeard t
    → IsLoud (write_message full t)
unfolding write_message Transport.write Transport.close of_error_code
write_message-IsLoud full [] t r (o, l) = rw (o, r, l) (inl (refl, refl))
write_message-IsLoud full (ec ∷ rest) t r (o, l) = elim (Bool-cases (is_zero ec.value)) [
  | inl z ↦ rw (o, r, z, l) (inl (refl, refl))
  | inr z ↦
      rw (o, r, z, l)
        (inr (record { code = ec.value; category = some ec.category; message = ec.message }, refl))
]

-- A message to an open transport that has a listener.
pub write_message_with_header-IsLoud :
    (msg : Bytes) (t : Transport) → IsHeard t → IsLoud (write_message_with_header msg t)
unfolding write_message_with_header
write_message_with_header-IsLoud msg t h = filled (fill_header msg)
  where
    filled : (o : Outcome Bytes) → IsLoud (continue o write_message t)
    filled (ok full) = write_message-IsLoud full t.write_results t refl h
    filled (throws x) = inl h
    filled aborts = inl h
    filled undefined = inl h
    filled out_of_fuel = inl h
