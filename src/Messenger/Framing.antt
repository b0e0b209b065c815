-- ===== src/Messenger/Framing.antt =====
-- A message that one side has written with its header is handed to the other side's handler.
use cercall.Base.{
  ℕ, ◌+◌, ◌-◌, ◌^◌, ◌≤◌, ◌<◌, ◌≡◌, refl, true, [], ◌∷◌, le→leb, lt→leb-false, length, ap, subst,
  ◌∙◌, arith,
}
use cercall.Base.Exec.{Outcome, ok, Exec}
use cercall.Archive.{Bytes}
use cercall.Transport
use cercall.Transport.{Transport}
use cercall.Messenger.Header.{header_size, size_bytes, copy_size-header, length-size_bytes}
use cercall.Messenger.Reading.{
  MsgRecvState, header, message, Channel, read_header, read_message, round, loop, read, start_read,
  set_state, expecting, done,
}
use cercall.Messenger.Bounds.{IsChannel, needed}

module _ {W : Type 0} (c : Channel W) (laws : IsChannel c) where
  read_header-exact :
      (n : ℕ) (w : W)
      → Transport.get_read_data (c.transport w) ≡ size_bytes n
      → 0 < n
      → n < 2 ^ 32
      → read_header c w ≡ (ok tt, expecting c n w)
  unfolding read_header
  read_header-exact n w d pos small =
      rw (d, length-size_bytes n) (rw (copy_size-header n small) (ground arith))

  pub messenger-expecting :
      (n : ℕ) (w : W)
      → c.messenger (expecting c n w) ≡ record { receive_state = message; incoming_msg_size = n }
  messenger-expecting n w = simp (laws.messenger-set_transport, laws.messenger-set_messenger)

  -- A round with too few bytes is the last.
  round-stop :
      (next : ℕ → ℕ → Exec W ℕ) (s : MsgRecvState) (size d r : ℕ) (w : W)
      → d < needed (record { receive_state = s; incoming_msg_size = size })
      → round c next (record { receive_state = s; incoming_msg_size = size }) d r w ≡ (ok r, w)
  unfolding round
  round-stop next header size d r w h = rw (lt→leb-false header_size d h)
  round-stop next message size d r w h = rw (lt→leb-false size d h)

  -- A round in which the case of the state returns.
  round-header :
      (next : ℕ → ℕ → Exec W ℕ) (size d r : ℕ) (w w' : W)
      → header_size ≤ d
      → read_header c w ≡ (ok tt, w')
      → round c next (record { receive_state = header; incoming_msg_size = size }) d r w
        ≡ next (d - header_size) (r + header_size) w'
  unfolding round
  round-header next size d r w w' h e = rw (le→leb header_size d h) (rw e)

  round-message :
      (next : ℕ → ℕ → Exec W ℕ) (size d r : ℕ) (w w' : W)
      → size ≤ d
      → read_message c size w ≡ (ok size, w')
      → round c next (record { receive_state = message; incoming_msg_size = size }) d r w
        ≡ next (d - size) (r + size) w'
  unfolding round
  round-message next size d r w w' h e = rw (le→leb size d h) (rw e)

  -- The header of a message of `n` bytes makes the messenger ask for them.
  pub read-header :
      (n : ℕ) (w : W)
      → (c.messenger w).receive_state ≡ header
      → Transport.get_read_data (c.transport w) ≡ size_bytes n
      → 0 < n
      → n < 2 ^ 32
      → read c header_size w ≡ (ok header_size, expecting c n w)
  unfolding read loop
  read-header n w e d pos small = rw e (
      round-header _ (c.messenger w).incoming_msg_size header_size 0 w (expecting c n w)
        (omega arith) (read_header-exact n w d pos small)
      ∙ rw (messenger-expecting n w) (round-stop _ message n 0 header_size (expecting c n w) pos))

  read_message-exact :
      (m : Bytes) (w w' : W)
      → Transport.get_read_data (c.transport w) ≡ m
      → c.messenger w' ≡ record { receive_state = message; incoming_msg_size = length m }
      → c.handle m w ≡ (ok tt, w')
      → c.alive w' ≡ true
      → read_message c (length m) w
        ≡ (ok (length m), start_read c header_size (set_state c header w'))
  unfolding read_message
  read_message-exact m w w' d e h alive =
      rw (d, le→leb (length m) (length m) (omega arith)) (rw h (rw alive (rw e refl)))

  messenger-done :
      (w : W)
      → c.messenger (done c w)
        ≡ record { receive_state = header; incoming_msg_size = (c.messenger w).incoming_msg_size }
  messenger-done w = simp (laws.messenger-set_transport, laws.messenger-set_messenger)

  -- A message that is there is handed to the handler, and the messenger asks for the next header.
  pub read-message :
      (m : Bytes) (w w' : W)
      → c.messenger w ≡ record { receive_state = message; incoming_msg_size = length m }
      → Transport.get_read_data (c.transport w) ≡ m
      → 0 < length m
      → c.handle m w ≡ (ok tt, w')
      → c.alive w' ≡ true
      → read c (length m) w ≡ (ok (length m), done c w')
  unfolding read loop
  read-message [] w w' e d pos h alive = absurd (omega arith)
  read-message (b ∷ bs) w w' e d pos h alive =
      let n = length (b ∷ bs) in
      rw e (
        round-message _ n n 0 w (done c w') (omega arith)
          (read_message-exact (b ∷ bs) w w' d (kept ∙ e) h alive)
        ∙ rw (messenger-done w') (
            round-stop _ header (c.messenger w').incoming_msg_size (n - n) (0 + n) (done c w')
              (omega arith)
            ∙ ap (λ (k : ℕ). (ok k, done c w')) (omega arith)))
    where
      kept : c.messenger w' ≡ c.messenger w
      kept =
          subst (λ (r : Outcome (Unit {0}) × W). c.messenger r.1 ≡ c.messenger w) h
            (laws.handle_keeps (b ∷ bs) w (rw h alive))
