-- ===== src/Messenger/Keeps.antt =====
-- What the handler, the messenger and the start of a read keep, `Messenger::read` keeps.
use cercall.Base.{ℕ, zero, suc}
use cercall.Base.Exec.{Exec}
use cercall.Base.Keeps.{Keeps, Keeps-modify, keeps_rules}
use cercall.Archive.{Bytes}
use cercall.Messenger.Reading.{
  MsgRecvState, header, message, Messenger, Channel, init_transport, read_header, read_message,
  round, loop, read, start_read, set_state, set_size,
}

module _ {W : Type 0} (c : Channel W) (P : W → Type 0)
    (sets_messenger : (m : Messenger) (w : W) → P w → P (c.set_messenger m w))
    (starts_read : (n : ℕ) (w : W) → P w → P (start_read c n w))
    (handles : (b : Bytes) → Keeps P (c.handle b)) where
  start_read-Keeps : (n : ℕ) (w : W) → P w → P (start_read c n w)
  start_read-Keeps n w h = starts_read n w h

  set_state-Keeps : (s : MsgRecvState) (w : W) → P w → P (set_state c s w)
  set_state-Keeps s w h = sets_messenger _ w h

  set_size-Keeps : (n : ℕ) (w : W) → P w → P (set_size c n w)
  set_size-Keeps n w h = sets_messenger _ w h

  ruleset read_rules =
      (keeps_rules, Keeps-modify, start_read-Keeps, set_state-Keeps, set_size-Keeps)

  read_header-Keeps : Keeps P (read_header c)
  unfolding read_header
  read_header-Keeps = search (read_rules, handles) depth 12

  read_message-Keeps : (size : ℕ) → Keeps P (read_message c size)
  unfolding read_message
  read_message-Keeps size = search (read_rules, handles) depth 14

  pub init_transport-Keeps : Keeps P (init_transport c)
  unfolding init_transport
  init_transport-Keeps = search (read_rules, handles) depth 8

  round-Keeps :
      (next : ℕ → ℕ → Exec W ℕ) (s : MsgRecvState) (n d r : ℕ)
      → ((d' r' : ℕ) → Keeps P (next d' r'))
      → Keeps P (round c next (record { receive_state = s; incoming_msg_size = n }) d r)
  unfolding round
  round-Keeps next header n d r k = search (keeps_rules, read_header-Keeps, k)
  round-Keeps next message n d r k = search (keeps_rules, read_message-Keeps, k)

  loop-Keeps : (fuel d r : ℕ) → Keeps P (loop c fuel d r)
  unfolding loop
  loop-Keeps zero d r = record { at = λ w h. h }
  loop-Keeps (suc fuel) d r = record {
    at = λ w h.
        (round-Keeps (loop c fuel) (c.messenger w).receive_state (c.messenger w).incoming_msg_size d
            r (loop-Keeps fuel)).at
          w h;
  }

  pub read-Keeps : (d : ℕ) → Keeps P (read c d)
  unfolding read
  read-Keeps d = loop-Keeps (suc d) d 0
