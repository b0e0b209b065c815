-- ===== src/Messenger/Reading.antt =====
-- `Messenger::read` of include/cercall/details/messenger.h. The loop works on a messenger and a
-- transport that are parts of a larger state, and calls a handler that may change that state, and
-- that may even destroy the messenger; `Channel` is how it reaches all these.
use cercall.Base.{ℕ, zero, suc, ◌+◌, ◌-◌, Bool, true, false, leb, nat_beq, length, if◌then◌else◌}
use cercall.Base.Exec.{
  undefined, out_of_fuel, runtime_error, Exec, pure, throw, lift, gets, modify, o_assert, ◌>>=◌,
  ◌>>◌,
}
use cercall.Archive.{Bytes}
use cercall.Transport
use cercall.Transport.{Transport}
use cercall.Messenger.Header.{header_size, copy_size}

-- HEADER, MESSAGE
pub data MsgRecvState : Type 0 where
  header message : MsgRecvState

pub record Messenger : Type 0 where
  pub receive_state : MsgRecvState
  pub incoming_msg_size : ℕ

-- A messenger as it is constructed or copied.
abbrev pub new_messenger : Messenger
new_messenger = record { receive_state = header; incoming_msg_size = 0 }

pub record Channel (W : Type 0) : Type 0 where
  pub messenger : W → Messenger
  pub set_messenger : Messenger → W → W
  pub transport : W → Transport
  pub set_transport : Transport → W → W
  -- whether the messenger still exists
  pub alive : W → Bool
  pub handle : Bytes → Exec W (Unit {0})

module _ {W : Type 0} (c : Channel W) where
  abbrev pub start_read : ℕ → W → W
  start_read len w = c.set_transport (Transport.read len (c.transport w)) w

  abbrev pub set_size : ℕ → W → W
  set_size n w = c.set_messenger (record (c.messenger w) { incoming_msg_size = n }) w

  abbrev pub set_state : MsgRecvState → W → W
  set_state s w = c.set_messenger (record (c.messenger w) { receive_state = s }) w

  -- `init_transport`
  unfoldable pub init_transport : Exec W (Unit {0})
  init_transport = do
    m ← gets c.messenger
    o_assert (is_header m.receive_state)
    modify (start_read header_size)
    where
      is_header : MsgRecvState → Bool
      is_header header = true
      is_header message = false

  -- The case HEADER, when there is a header.
  unfoldable pub read_header : Exec W (Unit {0})
  read_header = do
    data' ← gets (λ w. Transport.get_read_data (c.transport w))
    o_assert (leb header_size (length data'))
    modify (set_size (copy_size data'))
    if nat_beq (copy_size data') 0
        then throw (runtime_error "invalid message length received")
        else pure tt
    modify (set_state message)
    modify (start_read (copy_size data'))

  -- The case MESSAGE, when there is a message: the number of bytes that it has taken. What follows
  -- the handler reads and writes the messenger.
  unfoldable pub read_message : ℕ → Exec W ℕ
  read_message size = do
    data' ← gets (λ w. Transport.get_read_data (c.transport w))
    o_assert (leb size (length data'))
    c.handle data'
    exists ← gets c.alive
    if exists then pure tt else lift undefined
    m ← gets c.messenger
    modify (set_state header)
    modify (start_read header_size)
    pure m.incoming_msg_size

  -- One round of the loop in a state, and `next` for the rounds after it.
  unfoldable pub round : (ℕ → ℕ → Exec W ℕ) → Messenger → ℕ → ℕ → Exec W ℕ
  round next m dataLenInBuffer bytesRead = elim m.receive_state [
    | header ↦
        if leb header_size dataLenInBuffer
        then read_header >> next (dataLenInBuffer - header_size) (bytesRead + header_size)
        else pure bytesRead
    | message ↦
        if leb m.incoming_msg_size dataLenInBuffer
        then (do
          taken ← read_message m.incoming_msg_size
          next (dataLenInBuffer - taken) (bytesRead + taken))
        else pure bytesRead
  ]

  unfoldable pub loop : ℕ → ℕ → ℕ → Exec W ℕ
  loop zero dataLenInBuffer bytesRead w = (out_of_fuel, w)
  loop (suc fuel) dataLenInBuffer bytesRead w =
      round (λ d r. loop fuel d r) (c.messenger w) dataLenInBuffer bytesRead w

  -- The fuel is one round more than there are bytes.
  unfoldable pub read : ℕ → Exec W ℕ
  read dataLenInBuffer = loop (suc dataLenInBuffer) dataLenInBuffer 0

  -- The state after a header of `n`, and the state after a message that left `w`.
  abbrev pub expecting : ℕ → W → W
  expecting n w = start_read n (set_state message (set_size n w))

  abbrev pub done : W → W
  done w = start_read header_size (set_state header w)
