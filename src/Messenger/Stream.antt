-- ===== src/Messenger/Stream.antt =====
-- The bytes of a connection, read as `asio::async_read` does: a read in progress is completed as
-- soon as as many bytes are there as it asks for, with exactly those. So the messages that one side
-- writes with their headers arrive one by one, in their order, at the handler of the other side.
use cercall.Base.{
  ℕ, zero, suc, ◌^◌, ◌<◌, ◌≡◌, ap, sym, ◌∙◌, true, none, some, ◌++◌, leb, le→leb, length,
  length-append, take, drop, take-append_left, drop-append_left, if◌then◌else◌, arith,
}
use cercall.Base.Exec.{ok, Exec, ◌>>=◌}
use cercall.Archive.{Bytes}
use cercall.Transport
use cercall.Transport.{Transport}
use cercall.Messenger.Header.{header_size, size_bytes, length-size_bytes}
use cercall.Messenger.Reading.{header, Channel, read, expecting, done}
use cercall.Messenger.Bounds.{IsChannel}
use cercall.Messenger.Framing.{read-header, read-message, messenger-expecting}

module _ {W : Type 0} (c : Channel W) where
  -- The library fills the buffer, and the completion calls `read`.
  abbrev pub deliver : Bytes → W → W
  deliver bytes w = c.set_transport (Transport.fill_buffer bytes (c.transport w)) w

  unfoldable pub pump : ℕ → Bytes → Exec W Bytes
  pump zero stream w = (ok stream, w)
  pump (suc fuel) stream w = elim (c.transport w).requested [
    | none ↦ (ok stream, w)
    | some n ↦
        if leb n (length stream)
        then ((λ v. read c n (deliver (take n stream) v)) >>= λ _. λ v. pump fuel (drop n stream) v)
            w
        else (ok stream, w)
  ]

  -- The state in which the handler meets a message, from the state before its header.
  abbrev pub arrived : Bytes → W → W
  arrived m w = deliver m (expecting c (length m) (deliver (size_bytes (length m)) w))

module _ {W : Type 0} (c : Channel W) (laws : IsChannel c) where
  pump-read :
      (fuel : ℕ) (front stream : Bytes) (w : W) (o : ℕ) (w' : W)
      → (c.transport w).requested ≡ some (length front)
      → read c (length front) (deliver c front w) ≡ (ok o, w')
      → pump c (suc fuel) (front ++ stream) w ≡ pump c fuel stream w'
  unfolding pump
  pump-read fuel front stream w o w' r e =
      rw (r, pump)
        (rw
          (le→leb (length front) (length (front ++ stream))
            (omega (arith, length-append front stream)))
          (rw (take-append_left front stream, drop-append_left front stream) (rw e)))

  transport-deliver :
      (bytes : Bytes) (w : W) → Transport.get_read_data (c.transport (deliver c bytes w)) ≡ bytes
  unfolding Transport.fill_buffer
  transport-deliver bytes w = rw laws.transport-set_transport

  requested-expecting : (n : ℕ) (w : W) → (c.transport (expecting c n w)).requested ≡ some n
  unfolding Transport.read
  requested-expecting n w = rw laws.transport-set_transport

  pub pump-frame :
      (fuel : ℕ) (m stream : Bytes) (w w' : W)
      → (c.messenger w).receive_state ≡ header
      → (c.transport w).requested ≡ some header_size
      → 0 < length m
      → length m < 2 ^ 32
      → c.handle m (arrived c m w) ≡ (ok tt, w')
      → c.alive w' ≡ true
      → pump c (suc (suc fuel)) (size_bytes (length m) ++ (m ++ stream)) w
        ≡ pump c fuel stream (done c w')
  pump-frame fuel m stream w w' s r pos small h alive =
      pump-read (suc fuel) (size_bytes n) (m ++ stream) w header_size w1
        (r ∙ ap some (sym (length-size_bytes n)))
        (rw length-size_bytes (
          read-header c laws n (deliver c (size_bytes n) w) (rw laws.messenger-set_transport s)
            (transport-deliver (size_bytes n) w) pos small))
      ∙ pump-read fuel m stream w1 n (done c w') (requested-expecting n _) (
          read-message c laws m (deliver c m w1) w'
            (rw laws.messenger-set_transport (messenger-expecting c laws n _))
            (transport-deliver m w1) pos h alive)
    where
      n : ℕ
      n = length m

      w1 : W
      w1 = expecting c n (deliver c (size_bytes n) w)
