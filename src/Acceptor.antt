-- ===== src/Acceptor.antt =====
-- include/cercall/asio/basicstreamacceptor.h, and the interface include/cercall/acceptor.h that it
-- implements. An acceptor is a part of a larger state, its listener's; the listener's functions may
-- throw, so they are arguments. The results of the network library are arguments too.
use cercall.Base.{Bool, true, false, not, ◌&&◌, ◌||◌, ℕ, ◌+◌, ◌-◌, if◌then◌else◌}
use cercall.Base.Exec.{logic_error, Exec, pure, throw, gets, modify, o_assert, ◌>>=◌, ◌>>◌}
use cercall.Base.Int.{is_zero}
use cercall.Error.{Error, ErrorCode, System, of_error_code}
use cercall.Transport.{operation_aborted, error_code_beq}

-- `accepting` is how many calls of `async_accept` are in progress: each has a handler that the
-- library will call. A close leaves them in progress; the library completes them later.
pub record Acceptor : Type 0 where
  pub is_open : Bool
  pub has_listener : Bool
  pub accepting : ℕ

abbrev pub new_acceptor : Acceptor
new_acceptor = record { is_open = false; has_listener = false; accepting = 0 }

module _ {W : Type 0} (acceptor : W → Acceptor) (set_acceptor : Acceptor → W → W)
    (on_client_accepted : ℕ → Exec W (Unit {0})) (on_accept_error : Error → Exec W (Unit {0})) where
  unfoldable pub start_accept : Exec W (Unit {0})
  start_accept = do
    listening ← gets (λ w. (acceptor w).has_listener)
    o_assert listening
    modify (λ w. set_acceptor (record (acceptor w) { accepting = (acceptor w).accepting + 1 }) w)

  -- `listen` has given `ec`; its error does not keep the function from accepting.
  listen_and_accept : ErrorCode → Exec W (Unit {0})
  listen_and_accept ec =
      (if is_zero ec.value then pure tt else on_accept_error (of_error_code ec)) >> start_accept

  bind_endpoint : ErrorCode → ErrorCode → Exec W (Unit {0})
  bind_endpoint bound listening =
      if is_zero bound.value
      then listen_and_accept listening
      else on_accept_error (of_error_code bound)

  open_endpoint : ErrorCode → ErrorCode → ErrorCode → Exec W (Unit {0})
  open_endpoint opened bound listening =
      if is_zero opened.value
      then modify (λ w. set_acceptor (record (acceptor w) { is_open = true }) w)
        >> bind_endpoint bound listening
      else on_accept_error (of_error_code opened)

  -- `open`, for the results of the library's `open`, `bind` and `listen`.
  unfoldable pub open_acceptor : ErrorCode → ErrorCode → ErrorCode → Exec W (Unit {0})
  unfolding start_accept listen_and_accept bind_endpoint open_endpoint
  open_acceptor opened bound listening = do
    listener ← gets (λ w. (acceptor w).has_listener)
    if listener
        then pure tt
        else throw (logic_error "cercall::asio::BasicStreamAcceptor: listener is NULL")
    already ← gets (λ w. (acceptor w).is_open)
    if already then start_accept else open_endpoint opened bound listening

  unfoldable pub close_acceptor : Exec W (Unit {0})
  close_acceptor = modify (λ w. set_acceptor (record (acceptor w) { is_open = false }) w)

  -- The destructor.
  unfoldable pub destroy_acceptor : Exec W (Unit {0})
  unfolding close_acceptor
  destroy_acceptor = do
    open_still ← gets (λ w. (acceptor w).is_open)
    if open_still then close_acceptor else pure tt

  unfoldable pub report_accept : System → ErrorCode → Bool → Exec W (Unit {0})
  report_accept sys ec still_open =
      if still_open || not (error_code_beq ec (operation_aborted sys))
      then on_accept_error (of_error_code ec)
      else pure tt

  -- The handler of `async_accept`, for the transport that it makes of an accepted socket.
  unfoldable pub accept_completed : System → ErrorCode → ℕ → Exec W (Unit {0})
  unfolding report_accept start_accept
  accept_completed sys ec clientTr = do
    modify (λ w. set_acceptor (record (acceptor w) { accepting = (acceptor w).accepting - 1 }) w)
    still_open ← gets (λ w. (acceptor w).is_open)
    if is_zero ec.value && still_open
        then on_client_accepted clientTr
        else report_accept sys ec still_open
    open_after ← gets (λ w. (acceptor w).is_open)
    if open_after then start_accept else pure tt
