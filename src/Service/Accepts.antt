-- ===== src/Service/Accepts.antt =====
-- How the service of include/cercall/service.h starts, and what it does when the acceptor of
-- include/cercall/asio/basicstreamacceptor.h reports an error.
use Prim.Native.String.{◌++◌ as append_text}
use cercall.Base.{
  ℕ, ◌+◌, ◌-◌, ◌≡◌, refl, ap, ◌∙◌, String, true, false, List, nat_beq, nat_eq, arith, Bool-cases,
  inl, inr, nat_beq_iff, if◌then◌else◌, ◌&&◌,
}
use cercall.Base.Exec.{Exec, Exception, Outcome, ok, throws, runtime_error, ◌>>◌}
use cercall.Base.Int.{is_zero}
use cercall.Archive.{Archive}
use cercall.Error.{ErrorCode, System, of_error_code}
use cercall.Serialization.{Serialization}
use cercall.Transport.{operation_aborted}
use cercall.Acceptor.{open_acceptor, start_accept, accept_completed}
use cercall.Service.State.{Service, check_thread_id}
use cercall.Service.Clients.{on_accept_error, start, client_accepted, stop}
use cercall.Service.Keeps.Operations.{one_less}
use cercall.Service.Stops.{AreServed, stop-IsDone}

-- What the service throws when it hears of an error of the acceptor.
abbrev pub accept_failed : ErrorCode → Exception
accept_failed ec =
    runtime_error
      (append_text "cercall::Service::on_accept_error: accept failed: " (of_error_code ec).message)

module _ {lib : Archive} where
  abbrev pub left_open : Service lib → Service lib
  left_open s = record s { acceptor = record s.acceptor { is_open = true } }

module _ {lib : Archive} (S : Serialization lib) (sys : System) (type_name : String) where
  on_accept_error-throws :
      (ec : ErrorCode) (s : Service lib)
      → nat_beq s.caller s.thread_id ≡ true
      → on_accept_error S sys type_name (of_error_code ec) s ≡ (throws (accept_failed ec), s)
  unfolding on_accept_error check_thread_id
  on_accept_error-throws ec s own = rw own refl

  start-running :
      (opened bound listening : ErrorCode) (s : Service lib)
      → nat_beq s.caller s.thread_id ≡ true
      → s.acceptor.is_open ≡ true
      → start S sys type_name opened bound listening s ≡ (ok tt, s)
  unfolding start check_thread_id
  start-running opened bound listening s own running = rw (own, running) refl

  start-stopped :
      (opened bound listening : ErrorCode) (s : Service lib)
      → nat_beq s.caller s.thread_id ≡ true
      → s.acceptor.has_listener ≡ true
      → s.acceptor.is_open ≡ false
      → is_zero opened.value ≡ true
      → is_zero bound.value ≡ true
      → is_zero listening.value ≡ true
      → start S sys type_name opened bound listening s ≡ (
        ok tt,
        record s {
          acceptor = record s.acceptor { is_open = true; accepting = s.acceptor.accepting + 1 };
        },
      )
  unfolding start open_acceptor start_accept check_thread_id
  start-stopped opened bound listening s own l stopped o b li = rw (own, stopped, l, o, b, li) refl

  start_endpoint-failed :
      (opened bound listening : ErrorCode) (s : Service lib)
      → nat_beq s.caller s.thread_id ≡ true
      → s.acceptor.has_listener ≡ true
      → s.acceptor.is_open ≡ false
      → is_zero opened.value ≡ true
      → (is_zero bound.value && is_zero listening.value) ≡ false
      → start S sys type_name opened bound listening s
        ≡ (throws (accept_failed (if is_zero bound.value then listening else bound)), left_open s)
  unfolding start open_acceptor on_accept_error check_thread_id
  start_endpoint-failed opened bound listening s own l stopped o bad =
      elim (Bool-cases (is_zero bound.value)) [
        | inl b ↦
            let li : is_zero listening.value ≡ false = ground arith in
            rw (own, stopped, l, o, b, li, own) refl
        | inr b ↦ rw (own, stopped, l, o, b, own) refl
      ]

  -- `start` of a service that is not running, when the endpoint is opened but cannot be bound, or
  -- bound and not listened to: it throws and starts no accept, but the acceptor stays open, so that
  -- any later `start` returns and does nothing.
  pub start-failed :
      (opened bound listening opened' bound' listening' : ErrorCode) (s : Service lib)
      → nat_beq s.caller s.thread_id ≡ true
      → s.acceptor.has_listener ≡ true
      → s.acceptor.is_open ≡ false
      → is_zero opened.value ≡ true
      → (is_zero bound.value && is_zero listening.value) ≡ false
      → (start S sys type_name opened bound listening s ≡ (
        throws (accept_failed (if is_zero bound.value then listening else bound)),
        left_open s,
      ))
        × (start S sys type_name opened' bound' listening' (left_open s) ≡ (ok tt, left_open s))
  start-failed opened bound listening opened' bound' listening' s own l stopped o bad = (
    start_endpoint-failed opened bound listening s own l stopped o bad,
    start-running opened' bound' listening' (left_open s) own refl,
  )

  aborted-closed :
      (p : ℕ) (results : List ErrorCode) (s : Service lib)
      → s.acceptor.is_open ≡ false
      → client_accepted S sys type_name (operation_aborted sys) p results s ≡ (ok tt, one_less s)
  unfolding client_accepted accept_completed
  aborted-closed p results s stopped =
      rw (stopped, (nat_beq_iff sys.category sys.category).1 refl) refl

  aborted-open :
      (p : ℕ) (results : List ErrorCode) (s : Service lib)
      → nat_beq s.caller s.thread_id ≡ true
      → s.acceptor.is_open ≡ true
      → client_accepted S sys type_name (operation_aborted sys) p results s
        ≡ (throws (accept_failed (operation_aborted sys)), one_less s)
  unfolding client_accepted accept_completed on_accept_error check_thread_id
  aborted-open p results s own running = rw (running, own) refl

  abbrev pub restart : ErrorCode → ErrorCode → ErrorCode → Exec (Service lib) (Unit {0})
  restart opened bound listening =
      stop S sys type_name >> start S sys type_name opened bound listening

  abbrev IsRestarted : ℕ → Outcome (Unit {0}) × Service lib → Type 0
  IsRestarted accepting (o, s) =
      (o ≡ ok tt)
      × (s.acceptor.is_open ≡ true)
      × (s.acceptor.accepting ≡ accepting)
      × (nat_beq s.caller s.thread_id ≡ true)

  restart-IsRestarted :
      (opened bound listening : ErrorCode) (s : Service lib)
      → nat_beq s.caller s.thread_id ≡ true
      → s.acceptor.is_open ≡ true
      → s.acceptor.has_listener ≡ true
      → is_zero opened.value ≡ true
      → is_zero bound.value ≡ true
      → is_zero listening.value ≡ true
      → AreServed s
      → IsRestarted (s.acceptor.accepting + 1) (restart opened bound listening s)
  restart-IsRestarted opened bound listening s own running l o b li served =
      let (ended, none_left, same, own') = stop-IsDone S sys type_name s own running served in
      let again =
        start-stopped opened bound listening (stop S sys type_name s).1 own'
          (ap (λ a. a.has_listener) same ∙ l) (ap (λ a. a.is_open) same) o b li in
      rw (ended, again) (refl, refl, ap (λ a. a.accepting + 1) same, own')

  -- A running service whose thread stops it, all of whose clients have an open transport that it
  -- listens to. If the library then completes an accept with the error that it was aborted, the
  -- handler returns and one accept less is in progress. If the service is started again before that,
  -- without an error, then the stop and the start return, and the same completion throws: the
  -- service hears of its own closing as a failed accept.
  pub restart-aborted :
      (opened bound listening : ErrorCode) (p : ℕ) (results : List ErrorCode) (s : Service lib)
      → nat_beq s.caller s.thread_id ≡ true
      → s.acceptor.is_open ≡ true
      → s.acceptor.has_listener ≡ true
      → is_zero opened.value ≡ true
      → is_zero bound.value ≡ true
      → is_zero listening.value ≡ true
      → AreServed s
      → let (o, stopped) =
          (stop S sys type_name
              >> client_accepted S sys type_name (operation_aborted sys) p results)
            s in
        let (o', again) = restart opened bound listening s in
        let (o'', after) =
          client_accepted S sys type_name (operation_aborted sys) p results again in
        (o ≡ ok tt)
        × (stopped.acceptor.accepting ≡ s.acceptor.accepting - 1)
        × (o' ≡ ok tt)
        × (again.acceptor.accepting ≡ s.acceptor.accepting + 1)
        × (o'' ≡ throws (accept_failed (operation_aborted sys)))
        × (after.acceptor.accepting ≡ s.acceptor.accepting)
  restart-aborted opened bound listening p results s own running l o b li served =
      let (ended, none_left, same, own') = stop-IsDone S sys type_name s own running served in
      let silent = aborted-closed p results (stop S sys type_name s).1 (ap (λ a. a.is_open) same) in
      let (again, open_again, more, own'') =
        restart-IsRestarted opened bound listening s own running l o b li served in
      let reported = aborted-open p results (restart opened bound listening s).1 own'' open_again in
      (
        rw (ended, silent) refl,
        rw (ended, silent) (ap (λ a. a.accepting - 1) same),
        again,
        more,
        ap (λ r. r.0) reported,
        rw reported (omega (arith, more)),
      )
