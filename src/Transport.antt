-- ===== src/Transport.antt =====
-- include/cercall/asio/basicstreamtransport.h, and the interface include/cercall/transport.h that
-- it implements. A transport notifies its listener; an operation returns its notifications, which
-- whoever calls it delivers in their order. Nothing that the code does after a notification reads
-- what a listener may have changed but the state of the transport, which listeners leave alone.
-- The socket is the network library's: the results of its next writes are a list of the state.
pub mod ClientTcp
pub mod States
pub mod Writes
use cercall.Base.{
  ℕ, ◌≡◌, Bool, true, false, not, ◌&&◌, ◌||◌, Option, none, some, List, [], ◌∷◌, ◌++◌, take, length,
  replicate, ◌-◌, nat_beq, if◌then◌else◌,
}
use cercall.Base.Exec.{Outcome, ok, aborts, Exec, o_assert, ◌>>=◌, ◌>>◌, modify, gets, pure}
use cercall.Base.Int.{ℤ, is_zero, int_beq}
use cercall.Error.{
  Error, ErrorCode, System, no_error, of_error_code, of_message, system_code, eintr, eagain,
  ewouldblock, enotconn, ecanceled,
}
use cercall.Result.{Result}
use cercall.Archive.{Bytes}

-- NEW, OPEN, CLOSED
pub data State : Type 0 where
  new opened closed : State

abbrev pub is_new : State → Bool
is_new new = true
is_new _ = false

abbrev pub is_opened : State → Bool
is_opened opened = true
is_opened _ = false

abbrev pub is_closed : State → Bool
is_closed closed = true
is_closed _ = false

-- The member functions of `Transport::Listener`, and the closure of an asynchronous `open`.
pub data Notification : Type 0 where
  connected disconnected : Notification
  connection_error : Error → Notification
  incoming_data : ℕ → Notification
  open_completed : Result Bool → Notification

-- `requested` is the length of the read in progress, `sent` what the socket has taken, the first
-- message first, and `write_results` what its next writes return, 0 when the list is used up.
pub record Transport : Type 0 where
  pub state : State
  pub has_listener : Bool
  pub buffer : Bytes
  pub requested : Option ℕ
  pub sent : List Bytes
  pub write_results : List ErrorCode

-- `BasicStreamTransport(ios)` and `BasicStreamTransport(socket)`
abbrev pub new_transport : List ErrorCode → Transport
new_transport results = record {
  state = new;
  has_listener = false;
  buffer = [];
  requested = none;
  sent = [];
  write_results = results;
}

unfoldable pub set_listener : Transport → Transport
set_listener t = record t { has_listener = true }

unfoldable pub clear_listener : Transport → Transport
clear_listener t = record t { has_listener = false }

abbrev pub is_open : Transport → Bool
is_open t = is_opened t.state

-- `resize` keeps the bytes that there are and fills up with 0.
unfoldable pub read : ℕ → Transport → Transport
read len t = record t {
  buffer = take len t.buffer ++ replicate (len - length t.buffer) 0;
  requested = some len;
}

abbrev pub get_read_data : Transport → Bytes
get_read_data t = t.buffer

unfoldable pub close : Transport → Transport × List Notification
close t =
    if is_opened t.state
    then (record t { state = closed }, if t.has_listener then disconnected ∷ [] else [])
    else (t, [])

-- The destructor.
unfoldable pub destroy : Transport → Transport × List Notification
unfolding close
destroy t = if not (is_closed t.state) then close t else (t, [])

-- `asio::write` and what follows it in `write`, for the result `ec` of the socket.
finish_write : Bytes → ErrorCode → Transport → Error × Transport × List Notification
finish_write msg ec t =
    if is_zero ec.value
    then (no_error, record t { sent = t.sent ++ msg ∷ [] }, [])
    else (let (t', notes) = close t in (of_error_code ec, t', notes))

write_to_socket : Bytes → List ErrorCode → Transport → Error × Transport × List Notification
write_to_socket msg [] t = (no_error, record t { sent = t.sent ++ msg ∷ [] }, [])
write_to_socket msg (ec ∷ rest) t = finish_write msg ec (record t { write_results = rest })

unfoldable pub write : Bytes → Transport → Error × Transport × List Notification
unfolding finish_write write_to_socket close of_error_code of_message
write msg t =
    if is_open t
    then write_to_socket msg t.write_results t
    else (of_message enotconn "socket not connected", t, [])

-- `open()`: the notification is the last thing but the return of `true`.
unfoldable pub start : Exec Transport (List Notification)
start = do
  listening ← gets (λ t. t.has_listener)
  o_assert listening
  fresh ← gets (λ t. is_new t.state)
  o_assert fresh
  modify (λ t. record t { state = opened })
  pure (connected ∷ [])

unfoldable pub is_recoverable : ℤ → Bool
is_recoverable netLibCode =
    int_beq netLibCode eagain || (int_beq netLibCode ewouldblock || int_beq netLibCode eintr)

abbrev pub operation_aborted : System → ErrorCode
operation_aborted sys = system_code sys ecanceled

abbrev pub error_code_beq : ErrorCode → ErrorCode → Bool
error_code_beq a b = int_beq a.value b.value && nat_beq a.category b.category

-- The completion of a read: the socket has filled the buffer with `bytes`.
unfoldable pub fill_buffer : Bytes → Transport → Transport
fill_buffer bytes t = record t { buffer = bytes; requested = none }

report_error : System → ErrorCode → Transport → List Notification
report_error sys ec t =
    if not (error_code_beq (operation_aborted sys) ec && is_closed t.state) && t.has_listener
    then connection_error (of_error_code ec) ∷ []
    else []

receive_data : ℕ → Exec Transport (List Notification)
receive_data bytesTransferred = do
  listening ← gets (λ t. t.has_listener)
  o_assert listening
  pure (incoming_data bytesTransferred ∷ [])

-- `handle_recv` up to the notification of its listener.
unfoldable pub handle_recv : System → ErrorCode → ℕ → Exec Transport (List Notification)
unfolding report_error receive_data of_error_code
handle_recv sys ec bytesTransferred t =
    if is_zero ec.value then receive_data bytesTransferred t else (ok (report_error sys ec t), t)

-- What follows it in `handle_recv`, when the listener has returned: after an error that is not
-- recoverable the transport is closed.
unfoldable pub finish_recv : ErrorCode → Exec Transport (List Notification)
unfolding is_recoverable close
finish_recv ec t =
    if is_zero ec.value || is_recoverable ec.value
    then (ok [], t)
    else (let (t', notes) = close t in (ok notes, t'))
