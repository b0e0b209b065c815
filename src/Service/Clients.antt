-- ===== src/Service/Clients.antt =====
-- How include/cercall/service.h gains clients, hears of them, broadcasts to them and stops.
use Prim.Native.String.{◌++◌ as append_text}
use cercall.Base.{
  ℕ, zero, suc, Option, none, some, String, List, [], ◌∷◌, Map, lookup, insert, length, nat_eq,
  if◌then◌else◌, not,
}
use cercall.Base.Exec.{
  no_throw, ok, throws, undefined, out_of_fuel, archive_error, runtime_error, Exec, pure, throw,
  lift, gets, modify, o_assert, ◌>>=◌, ◌>>◌,
}
use cercall.Error.{Error, ErrorCode, System}
use cercall.Archive.{Archive, Bytes, Arg}
use cercall.Serialization.{Serialization}
use cercall.Transport
use cercall.Transport.{
  Transport, Notification, connected, disconnected, connection_error, incoming_data, open_completed,
  new_transport,
}
use cercall.Messenger.{Messenger, new_messenger, Channel, read, init_transport}
use cercall.Acceptor.{Acceptor, open_acceptor, close_acceptor, accept_completed}
use cercall.Service.State.{
  Service, ClientState, check_thread_id, on_transport, on_disconnected, write, close_transport,
  is_client, client_ids, archives_of,
}
use cercall.Service.Dispatch.{dispatch_func}

module _ {lib : Archive} (S : Serialization lib) (sys : System) (type_name : String) where
  abbrev pub broadcast_func_name : String
  broadcast_func_name = append_text type_name "::broadcast_event"

  -- The message handler of a client.
  unfoldable pub handle_message : ℕ → Bytes → Exec (Service lib) (Unit {0})
  handle_message client msg = do
    present ← gets (is_client lib client)
    o_assert present
    cs ← gets (λ s. lookup client s.clients)
    archives ← lift (archives_of lib cs)
    (funcName, arArgs) ← lift (elim (S.deserialize_call archives msg) [
      | none ↦ throws archive_error
      | some call ↦ ok call
    ])
    dispatch_func S sys client funcName arArgs

  abbrev messenger_of : Option ClientState → Messenger
  messenger_of none = new_messenger
  messenger_of (some cs) = cs.messenger

  abbrev pub transport_of : Option Transport → Transport
  transport_of none = new_transport []
  transport_of (some t) = t

  set_client_messenger : ℕ → Messenger → Option ClientState → Service lib → Service lib
  set_client_messenger client m none s = s
  set_client_messenger client m (some cs) s = record s {
    clients = insert client (record cs { messenger = m }) s.clients;
  }

  -- The messenger of a client is a part of its `ClientState`, and goes with it.
  unfoldable pub service_channel : ℕ → Channel (Service lib)
  unfolding set_client_messenger
  service_channel client = record {
    messenger = λ s. messenger_of (lookup client s.clients);
    set_messenger = λ m s. set_client_messenger client m (lookup client s.clients) s;
    transport = λ s. transport_of (lookup client s.transports);
    set_transport = λ t s. record s { transports = insert client t s.transports };
    alive = is_client lib client;
    handle = handle_message client;
  }

  unfoldable pub on_incoming_data : ℕ → ℕ → Exec (Service lib) ℕ
  unfolding service_channel
  on_incoming_data client dataLenInBuffer = do
    check_thread_id lib "cercall::Service::on_incoming_data"
    present ← gets (is_client lib client)
    o_assert present
    read (service_channel client) dataLenInBuffer

  -- An accepted transport, which the acceptor has made: it becomes a client, unless there is one at
  -- its address.
  unfoldable pub add_client : ℕ → Exec (Service lib) (Unit {0})
  add_client clientTrans = do
    modify (λ s. record s {
      clients =
          insert clientTrans (record { messenger = new_messenger; archives = S.reusable_archive })
            s.clients;
    })
    notes ← on_transport lib clientTrans Transport.start
    init_transport (service_channel clientTrans)

  unfoldable pub on_client_accepted : ℕ → Exec (Service lib) (Unit {0})
  unfolding add_client
  on_client_accepted clientTrans = do
    on_transport lib clientTrans (modify Transport.set_listener)
    present ← gets (is_client lib clientTrans)
    if not present
        then add_client clientTrans
        else throw
            (runtime_error "cercall::Service::on_client_accepted: failed to add client to map")

  unfoldable pub on_accept_error : Error → Exec (Service lib) (Unit {0})
  on_accept_error e = do
    check_thread_id lib "cercall::Service::on_accept_error"
    throw
        (runtime_error (append_text "cercall::Service::on_accept_error: accept failed: " e.message))

  abbrev pub set_acceptor : Acceptor → Service lib → Service lib
  set_acceptor a s = record s { acceptor = a }

  -- `start`, for the results of the network library's `open`, `bind` and `listen`.
  unfoldable pub start : ErrorCode → ErrorCode → ErrorCode → Exec (Service lib) (Unit {0})
  start opened bound listening = do
    check_thread_id lib "cercall::Service::start"
    already ← gets (λ s. s.acceptor.is_open)
    if already
        then pure tt
        else open_acceptor (λ s. s.acceptor) set_acceptor on_client_accepted on_accept_error opened
            bound listening

  -- The acceptor makes a transport of the socket that it has accepted, at an address that the
  -- allocator chooses, and gives it to the service.
  unfoldable pub accept_client : List ErrorCode → ℕ → Exec (Service lib) (Unit {0})
  accept_client results clientTr = do
    modify (λ s. record s { transports = insert clientTr (new_transport results) s.transports })
    on_client_accepted clientTr

  -- An accept of the service's acceptor completes.
  unfoldable pub client_accepted : ErrorCode → ℕ → List ErrorCode → Exec (Service lib) (Unit {0})
  unfolding accept_client
  client_accepted ec clientTr results =
      accept_completed (λ s. s.acceptor) set_acceptor (accept_client results) on_accept_error sys ec
        clientTr

  -- `while (myClients.size() > 0)`, which closes the first client's transport.
  unfoldable pub close_first :
      Exec (Service lib) (Unit {0}) → Map ℕ ClientState → Exec (Service lib) (Unit {0})
  close_first rest [] = pure tt
  close_first rest ((p, cs) ∷ clients) = close_transport lib p >> rest

  unfoldable pub close_clients : ℕ → Exec (Service lib) (Unit {0})
  unfolding close_first
  close_clients zero s = (out_of_fuel, s)
  close_clients (suc fuel) s = close_first (close_clients fuel) s.clients s

  close_all : Exec (Service lib) (Unit {0})
  close_all s = close_clients (suc (length s.clients)) s

  unfoldable pub stop : Exec (Service lib) (Unit {0})
  unfolding close_all
  stop = do
    check_thread_id lib "cercall::Service::stop"
    running ← gets (λ s. s.acceptor.is_open)
    if running
        then (close_acceptor (λ s. s.acceptor) set_acceptor on_client_accepted on_accept_error
            >> close_all)
        else pure tt

  -- The destructor.
  unfoldable pub destroy_service : Exec (Service lib) (Unit {0})
  unfolding stop
  destroy_service = no_throw stop

  -- One client of a broadcast. If its write fails it is taken out of the map, and the loop goes on
  -- from an iterator that points to nothing.
  unfoldable pub broadcast_to : Arg lib → ℕ → Exec (Service lib) (Unit {0})
  broadcast_to ev client = do
    cs ← gets (λ s. lookup client s.clients)
    archives ← lift (archives_of lib cs)
    e ← write lib client (S.serialize_event archives broadcast_func_name ev)
    still ← gets (is_client lib client)
    if still then pure tt else lift undefined

  unfoldable pub broadcast_loop : Arg lib → List ℕ → Exec (Service lib) (Unit {0})
  unfolding broadcast_to
  broadcast_loop ev [] = pure tt
  broadcast_loop ev (client ∷ clients) = broadcast_to ev client >> broadcast_loop ev clients

  unfoldable pub broadcast : Arg lib → Exec (Service lib) (Unit {0})
  unfolding broadcast_loop
  broadcast ev = do
    check_thread_id lib "cercall::Service::broadcast"
    clients ← gets (λ s. client_ids lib s.clients)
    broadcast_loop ev clients

  -- `broadcast_event`, for an event of a polymorphic type, which it has made of its arguments, and
  -- for a plain one.
  unfoldable pub broadcast_event : Arg lib → Exec (Service lib) (Unit {0})
  unfolding broadcast
  broadcast_event ev = broadcast ev

  -- The service as the listener of a client's transport; it ignores errors of a connection.
  unfoldable pub notify : ℕ → Notification → Exec (Service lib) (Unit {0})
  notify client connected = pure tt
  notify client disconnected = on_disconnected lib client
  notify client (connection_error e) = pure tt
  notify client (incoming_data n) = on_incoming_data client n >>= λ _. pure tt
  notify client (open_completed r) = pure tt

  unfoldable pub notify_all : ℕ → List Notification → Exec (Service lib) (Unit {0})
  unfolding notify
  notify_all client [] = pure tt
  notify_all client (note ∷ notes) = notify client note >> notify_all client notes

  unfoldable pub read_completed : ℕ → ErrorCode → Bytes → ℕ → Exec (Service lib) (Unit {0})
  unfolding notify_all
  read_completed client ec bytes transferred = do
    on_transport lib client (modify (Transport.fill_buffer bytes))
    notes ← on_transport lib client (Transport.handle_recv sys ec transferred)
    notify_all client notes
    closing ← on_transport lib client (Transport.finish_recv ec)
    notify_all client closing
