-- ===== src/Service/State.antt =====
-- The state of include/cercall/service.h, its clients and its calls of their transports.
-- A transport is known by its address, a number; the objects themselves are in `transports`, since
-- a closure may keep one whose client is gone. What the program reads or writes through a pointer
-- to an object that has been destroyed is `undefined`.
use Prim.Native.String.{◌++◌ as append_text}
use cercall.Base.{
  ℕ, Bool, true, false, Option, none, some, String, List, [], ◌∷◌, Map, lookup, insert, erase,
  nat_eq, nat_beq, if◌then◌else◌,
}
use cercall.Base.Exec.{Outcome, ok, undefined, logic_error, Exec, pure, throw, modify, ◌>>=◌, ◌>>◌}
use cercall.Error.{Error}
use cercall.Archive.{Archive, Bytes}
use cercall.Transport
use cercall.Transport.{Transport, Notification, new_transport}
use cercall.Messenger.{Messenger, write_message_with_header}
use cercall.FunctionDict.{FuncDict}
use cercall.Acceptor.{Acceptor, new_acceptor}

-- `ClientState`; the transport that it points to is the one at its key. `archives` is whether it has
-- reusable archives.
pub record ClientState : Type 0 where
  pub messenger : Messenger
  pub archives : Bool

module _ (lib : Archive) where
  pub record Service : Type 0 where
    pub transports : Map ℕ Transport
    pub clients : Map ℕ ClientState
    pub pending_calls : List (String × ℕ)
    pub func_dict : FuncDict lib
    pub acceptor : Acceptor
    pub thread_id : ℕ
    pub caller : ℕ

  -- The constructor sets the listener of the acceptor.
  unfoldable pub new_service : ℕ → FuncDict lib → Service
  new_service thread dict = record {
    transports = [];
    clients = [];
    pending_calls = [];
    func_dict = dict;
    acceptor = record new_acceptor { has_listener = true };
    thread_id = thread;
    caller = thread;
  }

  unfoldable pub check_thread_id : String → Exec Service (Unit {0})
  check_thread_id errorMsg s =
      if nat_beq s.caller s.thread_id
      then pure tt s
      else throw (logic_error (append_text errorMsg ": call from a foreign thread not supported")) s

  at_transport : {A : Type 0} → ℕ → Exec Transport A → Option Transport → Exec Service A
  at_transport p m none s = (undefined, s)
  at_transport p m (some t) s =
      let (o, t') = m t in (o, record s { transports = insert p t' s.transports })

  -- An operation of the transport at an address.
  unfoldable pub on_transport : {A : Type 0} → ℕ → Exec Transport A → Exec Service A
  unfolding at_transport
  on_transport p m s = at_transport p m (lookup p s.transports) s

  -- What it says of the calls that are still pending goes to the log only.
  unfoldable pub on_disconnected : ℕ → Exec Service (Unit {0})
  unfolding check_thread_id on_transport
  on_disconnected client = do
    check_thread_id "cercall::Service::on_disconnected"
    on_transport client (modify Transport.clear_listener)
    modify (λ s. record s { clients = erase client s.clients })

  -- A write and a close notify of nothing but a disconnection.
  unfoldable pub notify_closed : ℕ → List Notification → Exec Service (Unit {0})
  unfolding on_disconnected
  notify_closed client [] = pure tt
  notify_closed client (_ ∷ notes) = on_disconnected client >> notify_closed client notes

  unfoldable pub write : ℕ → Bytes → Exec Service Error
  unfolding on_transport notify_closed
  write client msg = do
    (e, notes) ← on_transport client (write_message_with_header msg)
    notify_closed client notes
    pure e

  unfoldable pub close_transport : ℕ → Exec Service (Unit {0})
  unfolding on_transport notify_closed
  close_transport client = do
    notes ← on_transport client (λ t. let (t', ns) = Transport.close t in (ok ns, t'))
    notify_closed client notes

  abbrev pub is_client : ℕ → Service → Bool
  is_client p s = elim (lookup p s.clients) [ none ↦ false | some cs ↦ true ]

  abbrev pub client_ids : Map ℕ ClientState → List ℕ
  client_ids [] = []
  client_ids ((p, cs) ∷ clients) = p ∷ client_ids clients

  -- `get_clients`
  unfoldable pub get_clients : Service → List ℕ
  get_clients s = client_ids s.clients

  -- The archives of a client; `undefined` if the client is gone.
  abbrev pub archives_of : Option ClientState → Outcome Bool
  archives_of none = undefined
  archives_of (some cs) = ok cs.archives
