-- ===== src/Messenger/Header.antt =====
-- The message header of include/cercall/details/messenger.h: the size of the message that follows,
-- as a `uint32_t` in the byte order of the machine, which is taken to be little-endian.
use cercall.Base.{
  ℕ, ◌+◌, ◌-◌, ◌*◌, ◌/◌, ◌%◌, ◌^◌, ◌≤◌, ◌<◌, ◌≡◌, refl, [], ◌∷◌, ◌++◌, ltb, length, drop,
  if◌then◌else◌, arith,
}
use cercall.Base.Exec.{Outcome, ok, throws, undefined, length_error}
use cercall.Archive.{Bytes}

-- HEADER_SIZE, and `std::numeric_limits<MessageSizeType>::max()`
abbrev pub header_size : ℕ
header_size = 4

abbrev pub size_max : ℕ
size_max = 2 ^ 32 - 1

-- The bytes of a `MessageSizeType` in memory.
unfoldable pub size_bytes : ℕ → Bytes
size_bytes n = n % 256 ∷ n / 256 % 256 ∷ n / 65536 % 256 ∷ n / 16777216 % 256 ∷ []

-- `std::copy_n` of the first HEADER_SIZE bytes onto `myIncomingMsgSize`; the caller has asserted
-- that they are there.
unfoldable pub copy_size : Bytes → ℕ
copy_size (a ∷ b ∷ c ∷ d ∷ rest) = a + b * 256 + c * 65536 + d * 16777216
copy_size _ = 0

-- What `reserve_message_header` writes to an empty stream.
abbrev pub reserve_message_header : Bytes
reserve_message_header = 0 ∷ 0 ∷ 0 ∷ 0 ∷ []

abbrev pub strip_header : Bytes → Bytes
strip_header msg = drop header_size msg

-- `write_message_with_header` up to the write: the message with its size put over the first bytes.
-- A message shorter than a header is written past its end.
unfoldable pub fill_header : Bytes → Outcome Bytes
fill_header msg =
    let n = length msg in
    if ltb (size_max - header_size) n
    then throws (length_error "message too long")
    else if ltb n header_size
    then undefined
    else ok (size_bytes ((n + 2 ^ 32 - header_size) % 2 ^ 32) ++ drop header_size msg)

pub copy_size-size_bytes :
    (n : ℕ) (rest : Bytes) → n < 2 ^ 32 → copy_size (size_bytes n ++ rest) ≡ n
unfolding copy_size size_bytes
copy_size-size_bytes n rest h = omega arith

pub copy_size-header : (n : ℕ) → n < 2 ^ 32 → copy_size (size_bytes n) ≡ n
unfolding copy_size size_bytes
copy_size-header n h = omega arith

pub length-size_bytes : (n : ℕ) → length (size_bytes n) ≡ header_size
unfolding size_bytes
length-size_bytes n = refl

-- A message is its four reserved bytes and a body.
pub fill_header_body :
    (body : Bytes)
    → length body ≤ size_max - 8
    → fill_header (reserve_message_header ++ body) ≡ ok (size_bytes (length body) ++ body)
unfolding fill_header
fill_header_body body h = ground arith
