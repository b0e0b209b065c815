-- ===== src/Client/Connection.antt =====
-- The connection of include/cercall/client.h: opening, closing and the notifications of the transport.
use cercall.Base.{
  ℕ, Bool, true, false, Option, none, some, String, List, [], ◌∷◌, ◌++◌, lookup, filter_ne, nat_eq,
  string_eq,
}
use cercall.Base.Exec.{no_throw, ok, Exec, pure, gets, modify, ◌>>=◌, ◌>>◌}
use cercall.Error.{Error, ErrorCode, System}
use cercall.Archive.{Archive, Bytes}
use cercall.Serialization.{Serialization}
use cercall.Transport
use cercall.Transport.{
  Transport, Notification, is_open, clear_listener, connected, disconnected, connection_error,
  incoming_data, open_completed, is_open, handle_recv, finish_recv, fill_buffer,
}
use cercall.Transport.ClientTcp.{open_sync, open_async, handle_resolve, handle_connect}
use cercall.Messenger.{init_transport}
use cercall.Client.State.{
  Client, EventTy, open_called, check_thread_id, on_transport, call_user, on_disconnected,
  notify_closed,
}
use cercall.Client.Sending.{full_func_name}
use cercall.Client.Receiving.{client_channel, on_incoming_data, on_connection_error}

module _ {lib : Archive} (S : Serialization lib) (type_name : String) (max_calls : ℕ)
    (event_type : EventTy lib) where
  unfoldable pub add_listener : ℕ → Client lib → Client lib
  add_listener l c = record c { event_listeners = c.event_listeners ++ l ∷ [] }

  -- `std::list::remove`
  unfoldable pub remove_listener : ℕ → Client lib → Client lib
  remove_listener l c = record c { event_listeners = filter_ne l c.event_listeners }

  -- `is_open`
  unfoldable pub is_client_open : Client lib → Bool
  is_client_open c = is_open c.transport

  unfoldable pub is_call_in_progress : String → Exec (Client lib) Bool
  is_call_in_progress functionName = do
    check_thread_id lib "cercall::Client::is_call_in_progress()"
    found ← gets (λ c. lookup (full_func_name S type_name max_calls functionName) c.closures)
    pure (elim found [ none ↦ false | some cl ↦ true ])

  -- `create_archives` and `init_transport`
  unfoldable pub on_connected : Exec (Client lib) (Unit {0})
  on_connected = do
    modify (λ c. record c { archives = S.reusable_archive })
    init_transport (client_channel S type_name max_calls event_type)

  -- The client as the listener of its transport.
  unfoldable pub notify : Notification → Exec (Client lib) (Unit {0})
  unfolding on_connected on_disconnected
  notify connected = on_connected
  notify disconnected = on_disconnected lib
  notify (connection_error e) = on_connection_error S type_name max_calls event_type e
  notify (incoming_data n) = on_incoming_data S type_name max_calls event_type n >>= λ _. pure tt
  notify (open_completed r) = call_user lib (open_called r)

  unfoldable pub notify_all : List Notification → Exec (Client lib) (Unit {0})
  unfolding notify
  notify_all [] = pure tt
  notify_all (note ∷ notes) = notify note >> notify_all notes

  -- `bool open()`, for what the network library resolves and connects to.
  unfoldable pub open_client : Option ErrorCode → Exec (Client lib) Bool
  unfolding check_thread_id notify_all
  open_client resolved = do
    check_thread_id lib "cercall::Client::open()"
    (result, notes) ← on_transport lib (open_sync resolved)
    notify_all notes
    pure result

  -- `void open(const Closure<bool>&)`, and the completions that follow it.
  unfoldable pub open_client_async : Error → Exec (Client lib) Bool
  unfolding check_thread_id notify_all
  open_client_async already_connected = do
    check_thread_id lib "cercall::Client::open()"
    (started, notes) ← on_transport lib (open_async already_connected)
    notify_all notes
    pure started

  unfoldable pub resolve_completed : ErrorCode → Exec (Client lib) Bool
  unfolding notify_all
  resolve_completed ec = do
    (connecting, notes) ← on_transport lib (handle_resolve ec)
    notify_all notes
    pure connecting

  unfoldable pub connect_completed : ErrorCode → Exec (Client lib) (Unit {0})
  unfolding notify_all
  connect_completed ec = do notes ← on_transport lib (handle_connect ec); notify_all notes

  unfoldable pub close_client : Exec (Client lib) (Unit {0})
  unfolding check_thread_id notify_closed
  close_client = do
    check_thread_id lib "cercall::Client::close()"
    notes ← on_transport lib (λ t. let (t', ns) = Transport.close t in (ok ns, t'))
    notify_closed lib notes

  -- The destructor.
  unfoldable pub destroy_client : Exec (Client lib) (Unit {0})
  unfolding notify_closed clear_listener
  destroy_client = no_throw (do
    notes ← on_transport lib (λ t. let (t', ns) = Transport.close t in (ok ns, t'))
    notify_closed lib notes
    on_transport lib (modify clear_listener))

  -- A read of the transport has completed: with bytes in its buffer, or with an error.
  unfoldable pub read_completed : System → ErrorCode → Bytes → ℕ → Exec (Client lib) (Unit {0})
  unfolding notify_all
  read_completed sys ec bytes transferred = do
    modify (λ c. record c { transport = fill_buffer bytes c.transport })
    notes ← on_transport lib (handle_recv sys ec transferred)
    notify_all notes
    closing ← on_transport lib (finish_recv ec)
    notify_all closing
