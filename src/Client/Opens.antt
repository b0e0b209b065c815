-- ===== src/Client/Opens.antt =====
-- The two ways to open the client of include/cercall/client.h, over the transport of
-- include/cercall/asio/clienttcptransport.h.
use cercall.Base.{
  ℕ, ◌≡◌, refl, ◌∙◌, Bool, true, false, some, String, [], ◌∷◌, ◌++◌, nat_beq, Bool-cases, inl, inr,
  if◌then◌else◌,
}
use cercall.Base.Exec.{ok, Exec, ◌>>=◌}
use cercall.Base.Int.{is_zero}
use cercall.Error.{Error, ErrorCode, no_error, of_error_code}
use cercall.Result.{Result, of_value}
use cercall.Archive.{Archive}
use cercall.Serialization.{Serialization}
use cercall.Transport.{
  Transport, is_new, start, opened, connected, connection_error, open_completed,
}
use cercall.Transport.ClientTcp.{open_sync, open_async, handle_resolve, handle_connect}
use cercall.Messenger.{header, init_transport}
use cercall.Client.State.{Client, EventTy, open_called, check_thread_id}
use cercall.Client.Receiving.{on_connection_error, dispatch_connection_error, dispatch_errors}
use cercall.Client.Connection.{
  on_connected, notify, notify_all, open_client, open_client_async, resolve_completed,
  connect_completed,
}

-- What the transport does, when it is new and has a listener.
module _ (t : Transport) (fresh : is_new t.state ≡ true) (listens : t.has_listener ≡ true) where
  start-connected : start t ≡ (ok (connected ∷ []), record t { state = opened })
  unfolding start
  start-connected = rw listens (rw fresh refl)

  open_sync-connected :
      (ec : ErrorCode)
      → is_zero ec.value ≡ true
      → open_sync (some ec) t ≡ (ok (true, connected ∷ []), record t { state = opened })
  unfolding open_sync
  open_sync-connected ec z =
      rw (fresh, if◌then◌else◌) (rw (z, if◌then◌else◌) (rw start-connected refl))

  open_sync-failed :
      (ec : ErrorCode)
      → is_zero ec.value ≡ false
      → open_sync (some ec) t ≡ (ok (false, connection_error (of_error_code ec) ∷ []), t)
  unfolding open_sync
  open_sync-failed ec f = rw (fresh, if◌then◌else◌) (rw (f, if◌then◌else◌) refl)

  open_async-started : (already : Error) → open_async already t ≡ (ok (true, []), t)
  unfolding open_async
  open_async-started already = rw listens (rw (fresh, if◌then◌else◌) refl)

  handle_connect-connected :
      (ec : ErrorCode)
      → is_zero ec.value ≡ true
      → handle_connect ec t ≡ (
        ok (connected ∷ open_completed (of_value true no_error) ∷ []),
        record t { state = opened },
      )
  unfolding handle_connect
  handle_connect-connected ec z = rw (z, if◌then◌else◌) (rw start-connected refl)

  handle_connect-failed :
      (ec : ErrorCode)
      → is_zero ec.value ≡ false
      → handle_connect ec t ≡ (
        ok (
            connection_error (of_error_code ec)
            ∷ open_completed (of_value false (of_error_code ec))
            ∷ []),
        t,
      )
  unfolding handle_connect
  handle_connect-failed ec f = rw (f, if◌then◌else◌) refl

handle_resolve-resolved :
    (ec : ErrorCode) (t : Transport)
    → is_zero ec.value ≡ true
    → handle_resolve ec t ≡ (ok (true, []), t)
unfolding handle_resolve
handle_resolve-resolved ec t z = rw (z, if◌then◌else◌) refl

module _ {lib : Archive} (S : Serialization lib) (type_name : String) (max_calls : ℕ)
    (event_type : EventTy lib) where
  -- The client once its transport is connected.
  abbrev ready : Client lib → Client lib
  ready c = (on_connected S type_name max_calls event_type c).1

  -- The closure of an `open` has been called.
  abbrev pub opened_with : Result Bool → Client lib → Client lib
  opened_with r c = record c { calls = c.calls ++ open_called r ∷ [] }

  on_connected-ready :
      (c : Client lib)
      → c.messenger.receive_state ≡ header
      → on_connected S type_name max_calls event_type c ≡ (ok tt, ready c)
  unfolding on_connected init_transport
  on_connected-ready c head = rw head refl

  on_connection_error-idle :
      (e : Error) (c : Client lib)
      → nat_beq c.caller c.thread_id ≡ true
      → c.closures ≡ []
      → on_connection_error S type_name max_calls event_type e c ≡ (ok tt, c)
  unfolding on_connection_error check_thread_id dispatch_connection_error dispatch_errors
  on_connection_error-idle e c own idle = rw own (rw idle refl)

  -- `open` with a closure, the completion of the name's resolution, and that of the connection.
  pub open_and_complete : Error → ErrorCode → ErrorCode → Exec (Client lib) (Unit {0})
  open_and_complete already_connected resolved ec = do
    started ← open_client_async S type_name max_calls event_type already_connected
    connecting ← resolve_completed S type_name max_calls event_type resolved
    connect_completed S type_name max_calls event_type ec

  check-own :
      (message : String) (c : Client lib)
      → nat_beq c.caller c.thread_id ≡ true
      → check_thread_id lib message c ≡ (ok tt, c)
  unfolding check_thread_id
  check-own message c own = rw (own, if◌then◌else◌) refl

  -- The messages up to the completion of the connection leave the client as it is.
  open_and_complete-connecting :
      (already : Error) (resolved ec : ErrorCode) (c : Client lib)
      → nat_beq c.caller c.thread_id ≡ true
      → is_new c.transport.state ≡ true
      → c.transport.has_listener ≡ true
      → is_zero resolved.value ≡ true
      → open_and_complete already resolved ec c
        ≡ connect_completed S type_name max_calls event_type ec c
  unfolding open_and_complete open_client_async resolve_completed notify_all
  open_and_complete-connecting already resolved ec c own fresh listens z = rw check-own (
      rw (open_async-started c.transport fresh listens already)
        (rw (handle_resolve-resolved resolved c.transport z) refl))

  -- A new client whose transport has it for a listener, and no call in progress, is opened by its own
  -- thread.
  open_client-connected :
      (ec : ErrorCode) (c : Client lib)
      → nat_beq c.caller c.thread_id ≡ true
      → is_new c.transport.state ≡ true
      → c.transport.has_listener ≡ true
      → c.messenger.receive_state ≡ header
      → is_zero ec.value ≡ true
      → open_client S type_name max_calls event_type (some ec) c
        ≡ (ok true, ready (record c { transport = record c.transport { state = opened } }))
  unfolding open_client notify_all notify
  open_client-connected ec c own fresh listens head z = rw check-own (
      rw (open_sync-connected c.transport fresh listens ec z) (
        rw
          (on_connected-ready (record c { transport = record c.transport { state = opened } }) head)
          refl))

  open_client-failed :
      (ec : ErrorCode) (c : Client lib)
      → nat_beq c.caller c.thread_id ≡ true
      → is_new c.transport.state ≡ true
      → c.transport.has_listener ≡ true
      → c.closures ≡ []
      → is_zero ec.value ≡ false
      → open_client S type_name max_calls event_type (some ec) c ≡ (ok false, c)
  unfolding open_client notify_all notify
  open_client-failed ec c own fresh listens idle f = rw check-own (
      rw (open_sync-failed c.transport fresh listens ec f)
        (rw (on_connection_error-idle (of_error_code ec) c own idle) refl))

  connect_completed-connected :
      (ec : ErrorCode) (c : Client lib)
      → is_new c.transport.state ≡ true
      → c.transport.has_listener ≡ true
      → c.messenger.receive_state ≡ header
      → is_zero ec.value ≡ true
      → connect_completed S type_name max_calls event_type ec c ≡ (
        ok tt,
        opened_with
            (of_value true no_error)
            (ready (record c { transport = record c.transport { state = opened } })),
      )
  unfolding connect_completed notify_all notify
  connect_completed-connected ec c fresh listens head z =
      rw (handle_connect-connected c.transport fresh listens ec z) (
        rw
          (on_connected-ready (record c { transport = record c.transport { state = opened } }) head)
          refl)

  connect_completed-failed :
      (ec : ErrorCode) (c : Client lib)
      → nat_beq c.caller c.thread_id ≡ true
      → is_new c.transport.state ≡ true
      → c.transport.has_listener ≡ true
      → c.closures ≡ []
      → is_zero ec.value ≡ false
      → connect_completed S type_name max_calls event_type ec c
        ≡ (ok tt, opened_with (of_value false (of_error_code ec)) c)
  unfolding connect_completed notify_all notify
  connect_completed-failed ec c own fresh listens idle f =
      rw (handle_connect-failed c.transport fresh listens ec f)
        (rw (on_connection_error-idle (of_error_code ec) c own idle) refl)

  -- The two ways to open a client come to the same. A client that its own thread opens, whose
  -- transport is new and has the client for a listener, which waits for a header and has no call in
  -- progress, is opened by `open()`, which connects with the error code `ec`, or by the `open` with a
  -- closure, when the name has been resolved and the connection then completes with `ec`. Both leave
  -- the client the same, but that the second has called its closure, with the value that the first
  -- returns, whether `ec` is no error, and with the error of `ec` if it is one.
  pub open_and_complete-open_client :
      (already : Error) (resolved ec : ErrorCode) (c : Client lib)
      → nat_beq c.caller c.thread_id ≡ true
      → is_new c.transport.state ≡ true
      → c.transport.has_listener ≡ true
      → c.messenger.receive_state ≡ header
      → c.closures ≡ []
      → is_zero resolved.value ≡ true
      → (d : Client lib) × (open_client S type_name max_calls event_type (some ec) c
          ≡ (ok (is_zero ec.value), d))
        × (open_and_complete already resolved ec c ≡ (
          ok tt,
          opened_with
              (of_value
                (is_zero ec.value)
                (if is_zero ec.value then no_error else of_error_code ec))
              d,
        ))
  open_and_complete-open_client already resolved ec c own fresh listens head idle z =
      elim (Bool-cases (is_zero ec.value)) [
        | inl s ↦ (
          ready (record c { transport = record c.transport { state = opened } }),
          rw s (open_client-connected ec c own fresh listens head s),
          open_and_complete-connecting already resolved ec c own fresh listens z
              ∙ rw (s, if◌then◌else◌) (connect_completed-connected ec c fresh listens head s),
        )
        | inr f ↦ (
          c,
          rw f (open_client-failed ec c own fresh listens idle f),
          open_and_complete-connecting already resolved ec c own fresh listens z
              ∙ rw (f, if◌then◌else◌) (connect_completed-failed ec c own fresh listens idle f),
        )
      ]
