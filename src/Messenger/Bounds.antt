-- ===== src/Messenger/Bounds.antt =====
-- `Messenger::read` ends, takes no more bytes than there are, and leaves less than it waits for.
use cercall.Base.{
  ℕ, zero, suc, ◌+◌, ◌-◌, ◌≤◌, ◌<◌, ◌≡◌, ◌≢◌, refl, true, leb, leb→le, leb-false→lt, nat_beq,
  length, ap, ◌∙◌, arith,
}
use cercall.Base.Exec.{out_of_fuel, Exec}
use cercall.Base.Ensures.{
  Ensures, Ensures-ok, Ensures-bind, Ensures-assert, Ensures-guard, Ensures-defined, Ensures-if,
  Ensures-mono,
}
use cercall.Archive.{Bytes}
use cercall.Transport
use cercall.Transport.{Transport}
use cercall.Messenger.Header.{header_size, copy_size}
use cercall.Messenger.Reading.{
  MsgRecvState, header, message, Messenger, Channel, read_header, read_message, round, loop, read,
}

-- What `read` relies on: the messenger and the transport are two parts of the state, and a handler
-- that leaves the messenger in existence leaves it as it is, and ends.
pub record IsChannel {W : Type 0} (c : Channel W) : Type 0 where
  pub messenger-set_messenger : (m : Messenger) (w : W) → c.messenger (c.set_messenger m w) ≡ m
  pub messenger-set_transport :
      (t : Transport) (w : W) → c.messenger (c.set_transport t w) ≡ c.messenger w
  pub transport-set_messenger :
      (m : Messenger) (w : W) → c.transport (c.set_messenger m w) ≡ c.transport w
  pub transport-set_transport : (t : Transport) (w : W) → c.transport (c.set_transport t w) ≡ t
  pub handle_keeps :
      (b : Bytes) (w : W)
      → c.alive (c.handle b w).1 ≡ true
      → c.messenger (c.handle b w).1 ≡ c.messenger w
  pub handle_ends : (b : Bytes) (w : W) → (c.handle b w).0 ≢ out_of_fuel

-- The bytes that the messenger waits for.
abbrev pub needed : Messenger → ℕ
needed m = elim m.receive_state [ header ↦ header_size | message ↦ m.incoming_msg_size ]

-- A messenger waits for at least one byte.
abbrev pub IsReady : Messenger → Type 0
IsReady m = 0 < needed m

-- The result of `read` on `available` bytes.
pub record Takes (available n : ℕ) (m : Messenger) : Type 0 where
  pub within : n ≤ available
  pub rest_short : available - n < needed m
  pub ready : IsReady m

module _ {W : Type 0} (c : Channel W) (laws : IsChannel c) where
  abbrev After : (Messenger → Type 0) → W → Type 0
  After P w = P (c.messenger w)

  read_header-message : (w : W) → Ensures (λ _ s. IsReady (c.messenger s)) (read_header c w)
  unfolding read_header
  read_header-message w =
      let data' = Transport.get_read_data (c.transport w) in
      Ensures-assert (leb header_size (length data')) _ w λ _.
        Ensures-guard (nat_beq (copy_size data') 0) _ _ _ λ nonzero.
          Ensures-ok tt _
            (simp (laws.messenger-set_transport, laws.messenger-set_messenger) (ground arith))

  read_message-header :
      (size : ℕ) (w : W)
      → (c.messenger w).incoming_msg_size ≡ size
      → Ensures (λ taken s. (taken ≡ size) × IsReady (c.messenger s)) (read_message c size w)
  unfolding read_message
  read_message-header size w e =
      let data' = Transport.get_read_data (c.transport w) in
      Ensures-assert (leb size (length data')) _ w λ _.
        Ensures-bind {Q = λ _ s. c.alive s ≡ true → c.messenger s ≡ c.messenger w} (c.handle data')
          _ w
          (record { ends = laws.handle_ends data' w; result = λ _ _. laws.handle_keeps data' w })
          λ _ s kept. Ensures-defined (c.alive s) _ s λ alive. Ensures-ok _ _ (
            ap (λ (m : Messenger). m.incoming_msg_size) (kept alive) ∙ e,
            simp (laws.messenger-set_transport, laws.messenger-set_messenger) (ground arith),
          )

  abbrev Result : ℕ → ℕ → ℕ → W → Type 0
  Result available bytes n s = (bytes ≤ n) × Takes available (n - bytes) (c.messenger s)

  -- A round that takes nothing, since there is too little.
  Result-stop :
      (available bytes : ℕ) (s : W)
      → available < needed (c.messenger s)
      → Result available bytes bytes s
  Result-stop available bytes s h =
      (omega arith, record { within = omega arith; rest_short = omega arith; ready = omega arith })

  -- What was taken before a round adds up with what the later rounds take.
  Result-add :
      (available bytes taken n : ℕ) (s : W)
      → taken ≤ available
      → Result (available - taken) (bytes + taken) n s
      → Result available bytes n s
  Result-add available bytes taken n s h (le, t) =
      (omega arith, record { within = omega arith; rest_short = omega arith; ready = t.ready })

  module _ (next : ℕ → ℕ → Exec W ℕ) (available : ℕ)
      (later : (d r : ℕ) (w : W)
        → d < available
        → IsReady (c.messenger w)
        → Ensures (Result d r) (next d r w)) where
    round-Takes :
        (s : MsgRecvState) (size bytes : ℕ) (w : W)
        → c.messenger w ≡ record { receive_state = s; incoming_msg_size = size }
        → IsReady (c.messenger w)
        → Ensures (Result available bytes) (
            round c next (record { receive_state = s; incoming_msg_size = size }) available bytes w)
    unfolding round
    round-Takes header size bytes w e ready =
        Ensures-if (leb header_size available) _ _ w
          (λ enough. Ensures-bind (read_header c) _ w (read_header-message w) λ _ w' ready'.
            Ensures-mono _ (λ n s. Result-add available bytes header_size n s (leb→le _ _ enough))
              (later (available - header_size) (bytes + header_size) w'
                (omega (arith, leb→le _ _ enough)) ready'))
          (λ short.
            Ensures-ok bytes w
              (Result-stop available bytes w (omega (arith, leb-false→lt _ _ short, ap needed e))))
    round-Takes message size bytes w e ready =
        Ensures-if (leb size available) _ _ w
          (λ enough.
            Ensures-bind (read_message c size) _ w
              (read_message-header size w (ap (λ (m : Messenger). m.incoming_msg_size) e))
              λ taken w' (eq, ready').
                Ensures-mono _
                  (λ n s. Result-add available bytes taken n s (omega (arith, leb→le _ _ enough)))
                  (later (available - taken) (bytes + taken) w'
                    (omega (arith, leb→le _ _ enough, ap needed e)) ready'))
          (λ short.
            Ensures-ok bytes w
              (Result-stop available bytes w (omega (arith, leb-false→lt _ _ short, ap needed e))))

  loop-Takes :
      (fuel available bytes : ℕ) (w : W)
      → available < fuel
      → IsReady (c.messenger w)
      → Ensures (Result available bytes) (loop c fuel available bytes w)
  unfolding loop
  loop-Takes zero available bytes w h ready = absurd (omega arith)
  loop-Takes (suc fuel) available bytes w h ready =
      round-Takes (λ d r. loop c fuel d r) available
        (λ d r w' lt ready'. loop-Takes fuel d r w' (omega arith) ready')
        (c.messenger w).receive_state (c.messenger w).incoming_msg_size bytes w refl ready

  -- A call on any number of bytes, from a messenger that waits for at least one, with a handler
  -- that ends and, if the messenger exists after it, has left the messenger as it was: the call
  -- ends; if it returns, the number that it gives is at most the number of bytes there are,
  -- fewer bytes are left than the messenger then waits for, and it waits for at least one.
  pub read-Takes :
      (available : ℕ) (w : W)
      → IsReady (c.messenger w)
      → Ensures (λ n s. Takes available n (c.messenger s)) (read c available w)
  unfolding read
  read-Takes available w ready =
      Ensures-mono _
        (λ n s (_, q). record { within = omega arith; rest_short = omega arith; ready = q.ready })
        (loop-Takes (suc available) available 0 w (omega arith) ready)
