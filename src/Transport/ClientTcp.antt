-- ===== src/Transport/ClientTcp.antt =====
-- include/cercall/asio/clienttcptransport.h. Resolving a name and connecting are the network
-- library's: their results are arguments. `none` of a resolution is an exception that it throws.
use cercall.Base.{Bool, true, false, Option, none, some, List, [], ◌∷◌, ◌++◌, if◌then◌else◌}
use cercall.Base.Exec.{runtime_error, Exec, throw, o_assert, ◌>>=◌, ◌>>◌, gets, pure}
use cercall.Base.Int.{is_zero}
use cercall.Error.{Error, ErrorCode, no_error, of_error_code}
use cercall.Result.{of_value}
use cercall.Transport.{Transport, is_new, Notification, connection_error, open_completed, start}

-- `asio::connect` has given `ec`.
connect : ErrorCode → Exec Transport (Bool × List Notification)
connect ec =
    if is_zero ec.value
    then (do notes ← start; pure (true, notes))
    else pure (false, connection_error (of_error_code ec) ∷ [])

resolve_and_connect : Option ErrorCode → Exec Transport (Bool × List Notification)
resolve_and_connect none = throw (runtime_error "resolve")
resolve_and_connect (some ec) = connect ec

-- `bool open()`
unfoldable pub open_sync : Option ErrorCode → Exec Transport (Bool × List Notification)
unfolding connect resolve_and_connect of_error_code start
open_sync resolved = do
  fresh ← gets (λ t. is_new t.state)
  if fresh then resolve_and_connect resolved else pure (false, [])

-- `void open(const Closure<bool>&)`: `true` when a resolution has been started. The other result
-- carries the error of `std::errc::already_connected`.
unfoldable pub open_async : Error → Exec Transport (Bool × List Notification)
unfolding of_value
open_async already_connected = do
  listening ← gets (λ t. t.has_listener)
  o_assert listening
  fresh ← gets (λ t. is_new t.state)
  if fresh
      then pure (true, [])
      else pure (false, open_completed (of_value false already_connected) ∷ [])

-- `handle_resolve`: `true` when a connection has been started.
unfoldable pub handle_resolve : ErrorCode → Exec Transport (Bool × List Notification)
unfolding of_error_code of_value
handle_resolve ec =
    if is_zero ec.value
    then pure (true, [])
    else pure (
      false,
      connection_error (of_error_code ec) ∷ open_completed (of_value false (of_error_code ec)) ∷ [],
    )

unfoldable pub handle_connect : ErrorCode → Exec Transport (List Notification)
unfolding of_error_code of_value start
handle_connect ec =
    if is_zero ec.value
    then (do notes ← start; pure (notes ++ open_completed (of_value true no_error) ∷ []))
    else pure (
        connection_error (of_error_code ec)
        ∷ open_completed (of_value false (of_error_code ec))
        ∷ [])
