-- ===== src/Messenger/Delivery.antt =====
-- Both ends of include/cercall/details/messenger.h: what `write_message_with_header` puts in front
-- of the messages of one side makes `read` hand the same messages to the other side's handler.
use cercall.Base.{
  ℕ, ◌-◌, ◌*◌, ◌≤◌, ◌<◌, ◌≡◌, refl, ap, sym, ◌∙◌, true, some, List, [], ◌∷◌, ◌++◌, All, length,
  append_assoc, append-nil, arith,
}
use cercall.Base.Exec.{Outcome, ok}
use cercall.Archive.{Bytes}
use cercall.Transport
use cercall.Transport.{Transport}
use cercall.Messenger.Header.{
  header_size, size_max, size_bytes, reserve_message_header, fill_header, fill_header_body,
}
use cercall.Messenger.Reading.{header, Messenger, Channel, done}
use cercall.Messenger.Bounds.{IsChannel}
use cercall.Messenger.Stream.{pump, pump-frame, arrived}

-- A side that keeps the messages it has been handed.
pub record Recorder : Type 0 where
  pub messenger : Messenger
  pub transport : Transport
  pub delivered : List Bytes

abbrev pub recorder_channel : Channel Recorder
recorder_channel = record {
  messenger = λ r. r.messenger;
  set_messenger = λ m r. record r { messenger = m };
  transport = λ r. r.transport;
  set_transport = λ t r. record r { transport = t };
  alive = λ r. true;
  handle = λ m r. (ok tt, record r { delivered = r.delivered ++ m ∷ [] });
}

pub recorder-IsChannel : IsChannel recorder_channel
recorder-IsChannel = record {
  messenger-set_messenger = λ m r. refl;
  messenger-set_transport = λ t r. refl;
  transport-set_messenger = λ m r. refl;
  transport-set_transport = λ t r. refl;
  handle_keeps = λ b r _. refl;
  handle_ends = λ b r e. cc;
}

append_frame : Outcome Bytes → Outcome Bytes → Outcome Bytes
append_frame (ok full) (ok later) = ok (full ++ later)
append_frame (ok full) o = o
append_frame o _ = o

-- The messages with their headers, one after the other.
unfoldable pub frames : List Bytes → Outcome Bytes
unfolding append_frame
frames [] = ok []
frames (body ∷ bodies) = append_frame (fill_header (reserve_message_header ++ body)) (frames bodies)

-- A body that is not empty and leaves room for the header.
abbrev pub IsSendable : Bytes → Type 0
IsSendable body = (0 < length body) × (length body ≤ size_max - 8)

-- A side that has read all there was.
pub record IsIdle (r : Recorder) : Type 0 where
  pub waits : r.messenger.receive_state ≡ header
  pub asks : r.transport.requested ≡ some header_size

abbrev after_message : Bytes → Recorder → Recorder
after_message m r =
    let a = arrived recorder_channel m r in
    done recorder_channel (record a { delivered = a.delivered ++ m ∷ [] })

after_message-IsIdle : (m : Bytes) (r : Recorder) → IsIdle (after_message m r)
unfolding Transport.read
after_message-IsIdle m r = record { waits = refl; asks = refl }

-- Messages that are not empty and leave room for the header are framed without an error, and the
-- frames, read from an idle side with two reads for each message, leave it idle and have been
-- delivered to its handler, each once and in their order, with no byte left.
pub pump-frames :
    (bodies : List Bytes) (r : Recorder)
    → All IsSendable bodies
    → IsIdle r
    → (stream : Bytes) × (r' : Recorder) × (frames bodies ≡ ok stream)
      × (pump recorder_channel (length bodies * 2) stream r ≡ (ok [], r'))
      × (r'.delivered ≡ r.delivered ++ bodies)
      × IsIdle r'
unfolding frames
pump-frames [] r a i = ([], r, refl, unfold pump in refl, sym (append-nil r.delivered), i)
pump-frames (m ∷ ms) r a i =
    let (s, r', f, p, d, i') = pump-frames ms (after_message m r) a.1 (after_message-IsIdle m r) in
    (
      (size_bytes (length m) ++ m) ++ s,
      r',
      rw (fill_header_body m a.0.1, f),
      rw (append_assoc (size_bytes (length m)) m s) (
          ap (λ (k : ℕ). pump recorder_channel k (size_bytes (length m) ++ (m ++ s)) r)
            (omega arith)
          ∙ pump-frame recorder_channel recorder-IsChannel (length ms * 2) m s r _ i.waits i.asks
              a.0.0 (omega (arith, a.0.1)) refl refl
          ∙ p),
      d ∙ append_assoc r.delivered (m ∷ []) ms,
      i',
    )
