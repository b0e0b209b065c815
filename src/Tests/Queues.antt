-- ===== src/Tests/Queues.antt =====
-- The calls that wait at a client of include/cercall/client.h, and the ways to open one.
use cercall.Base.{ℕ, ◌≡◌, refl, none, some, if◌then◌else◌, List, [], ◌∷◌, lookup, string_eq, arith}
use cercall.Base.Exec.{ok}
use cercall.Base.Int.{is_zero}
use cercall.Error.{no_error, of_error_code}
use cercall.Result.{of_value}
use cercall.CallQueue.Fifo.{waiting}
use cercall.CallQueue.Refine.{
  Request, offer, run_next, Queued, serve_all, specified_all, Refines, serve_all-Refines,
}
use cercall.Client.{Client, new_client, open_client}
use cercall.Client.Drains.{
  Waiter, receive_results, answers_of, messages_of, receive_results-answered,
}
use cercall.Client.Opens.{open_and_complete, opened_with, open_and_complete-open_client}
use cercall.Tests.Codec.{numbers}
use cercall.Tests.Setup.{plain_cereal, add_closure, other_closure, five, busy_client, success}
use cercall.Tests.Clients.{no_events}

abbrev requests : List (Request ℕ)
requests =
    offer "add" 1
    ∷ offer "sub" 2
    ∷ offer "add" 3
    ∷ run_next "add"
    ∷ run_next "add"
    ∷ run_next "mul"
    ∷ []

abbrev empty_queue : Queued ℕ
empty_queue = record { queue = []; ran = [] }

empty-Refines : Refines 1 empty_queue (λ f. [], [])
unfolding lookup
empty-Refines = record { lists = λ f. refl; ran = refl; bounded = λ f. omega arith }

serve_all-Refines_example :
    (w : Queued ℕ) × (serve_all 1 requests empty_queue ≡ (ok tt, w))
    × Refines 1 w (specified_all 1 requests (λ f. [], []))
serve_all-Refines_example = serve_all-Refines 1 requests empty_queue (λ f. [], []) empty-Refines

abbrev waiter : Waiter numbers
waiter = record {
  call = record { msg = 0 ∷ 0 ∷ 0 ∷ 0 ∷ 6 ∷ []; closure_function = other_closure };
  body = 6 ∷ [];
  result = five;
  framed = refl;
  small = omega arith;
}

abbrev backlog_client : Client numbers
backlog_client = record busy_client { call_queue = ("Calc::add", waiter.call ∷ []) ∷ [] }

receive_results-answered_example :
    (d : Client numbers) × (receive_results plain_cereal "Calc" 2 no_events "Calc::add" add_closure
        five
        (waiter ∷ [])
        backlog_client
      ≡ (ok tt, d))
    × (d.calls ≡ answers_of numbers add_closure five (waiter ∷ []))
    × (d.transport.sent ≡ messages_of numbers (waiter ∷ []))
    × (lookup "Calc::add" d.closures ≡ none)
    × (waiting "Calc::add" d.call_queue ≡ [])
unfolding lookup
receive_results-answered_example =
    receive_results-answered plain_cereal "Calc" 2 no_events "Calc::add" add_closure five
      (waiter ∷ []) backlog_client refl refl (omega arith) refl refl refl

open_and_complete-open_client_example :
    (d : Client numbers) × (open_client plain_cereal "Calc" 2 no_events
        (some success)
        (new_client numbers 0 [])
      ≡ (ok (is_zero success.value), d))
    × (open_and_complete plain_cereal "Calc" 2 no_events no_error success success
          (new_client numbers 0 [])
        ≡ (
          ok tt,
          opened_with plain_cereal "Calc" 2 no_events
              (of_value
                (is_zero success.value)
                (if is_zero success.value then no_error else of_error_code success))
              d,
        ))
unfolding new_client
open_and_complete-open_client_example =
    open_and_complete-open_client plain_cereal "Calc" 2 no_events no_error success success
      (new_client numbers 0 []) refl refl refl refl refl refl
