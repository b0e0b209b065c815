-- ===== src/Client/State.antt =====
-- The state of include/cercall/client.h, and its calls of the transport.
-- A closure of the user is known by a number, and so is a listener; what the client calls them with
-- is recorded in `calls`, oldest first. A closure or a listener that calls the client again does so
-- as a later operation: the client calls a closure of a result last, after its state is up to date.
use Prim.Native.String.{◌++◌ as append_text}
use cercall.Base.{ℕ, Bool, false, Option, String, List, [], ◌∷◌, ◌++◌, Map, nat_beq, if◌then◌else◌}
use cercall.Base.Exec.{logic_error, Exec, pure, throw, modify, ◌>>=◌, ◌>>◌}
use cercall.Error.{Error, ErrorCode}
use cercall.Result.{Result}
use cercall.Archive.{Archive, Bytes, ResultTy, ResultVal}
use cercall.Transport.{Transport, Notification, new_transport, set_listener}
use cercall.Messenger.{Messenger, new_messenger, write_message_with_header}
use cercall.CallQueue.{CallQueue}

module _ (lib : Archive) where
  -- The template's `EventType`: `void`, a type of plain events, or a polymorphic one, whose events
  -- are passed by `unique_ptr`.
  pub data EventTy : Type 0 where
    no_event : EventTy
    plain_event : lib.Ty → EventTy
    polymorphic_event : lib.Ty → EventTy

  -- `ClosureFunction`: the user's closure, and the result type that it captures.
  pub record ClosureFunction : Type 0 where
    pub closure : ℕ
    pub result_type : ResultTy lib

  -- The action of a queued call captures its message and its closure.
  pub record QueuedCall : Type 0 where
    pub msg : Bytes
    pub closure_function : ClosureFunction

  -- A call of user code: a closure with a result, or a listener with an event, `none` for a pointer
  -- that was moved from.
  pub data UserCall : Type 0 where
    closure_called : ℕ → (r : ResultTy lib) → Result (ResultVal lib r) → UserCall
    event_received : ℕ → (t : lib.Ty) → Option (lib.Val t) → UserCall
    open_called : Result Bool → UserCall

  -- `archives` is whether the reusable archives have been made. `caller` is the thread that calls.
  pub record Client : Type 0 where
    pub event_listeners : List ℕ
    pub transport : Transport
    pub archives : Bool
    pub messenger : Messenger
    pub call_queue : CallQueue QueuedCall
    pub closures : Map String ClosureFunction
    pub thread_id : ℕ
    pub caller : ℕ
    pub calls : List UserCall

  -- The constructor.
  unfoldable pub new_client : ℕ → List ErrorCode → Client
  unfolding set_listener
  new_client thread results = record {
    event_listeners = [];
    transport = set_listener (new_transport results);
    archives = false;
    messenger = new_messenger;
    call_queue = [];
    closures = [];
    thread_id = thread;
    caller = thread;
    calls = [];
  }

  unfoldable pub check_thread_id : String → Exec Client (Unit {0})
  check_thread_id errorMsg c =
      if nat_beq c.caller c.thread_id
      then pure tt c
      else throw (logic_error (append_text errorMsg ": call from a foreign thread not supported")) c

  -- An operation of the transport.
  abbrev pub on_transport : {A : Type 0} → Exec Transport A → Exec Client A
  on_transport m c = let (o, t) = m c.transport in (o, record c { transport = t })

  abbrev pub call_user : UserCall → Exec Client (Unit {0})
  call_user call = modify (λ c. record c { calls = c.calls ++ call ∷ [] })

  unfoldable pub on_disconnected : Exec Client (Unit {0})
  unfolding check_thread_id
  on_disconnected = check_thread_id "cercall::Client::on_disconnected"

  -- A write and a close notify of nothing but a disconnection.
  unfoldable pub notify_closed : List Notification → Exec Client (Unit {0})
  notify_closed [] = pure tt
  notify_closed (_ ∷ notes) = on_disconnected >> notify_closed notes

  unfoldable pub write : Bytes → Exec Client Error
  unfolding notify_closed on_disconnected
  write msg = do
    (e, notes) ← on_transport (write_message_with_header msg)
    notify_closed notes
    pure e
