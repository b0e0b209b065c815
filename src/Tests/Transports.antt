-- ===== src/Tests/Transports.antt =====
-- include/cercall/asio/basicstreamtransport.h
use cercall.Base.{◌≤◌, ◌≡◌, refl, none, ◌⊎◌, List, [], ◌∷◌}
use cercall.Base.Exec.{ok}
use cercall.Base.Int.{pos}
use cercall.Error.{ErrorCode, of_error_code}
use cercall.Transport.{
  Transport, opened, closed, connection_error, disconnected, write, fill_buffer,
}
use cercall.Transport.States.{
  received, Event, writes, closes, receives, run, rank, closings, disconnections, run-closings,
}
use cercall.Transport.Writes.{Reported, write-Reported, handle_recv-error}
use cercall.Tests.Setup.{linux, connection}

abbrev reset : ErrorCode
reset = record { value = pos 104; category = 1; message = "connection reset" }

abbrev failing : Transport
failing = record connection { write_results = reset ∷ [] }

write-Reported_example :
    Reported (1 ∷ []) failing (write (1 ∷ []) failing).0 (write (1 ∷ []) failing).1
write-Reported_example = write-Reported (1 ∷ []) failing

abbrev events : List Event
events = writes (1 ∷ []) ∷ receives reset 0 ∷ closes ∷ []

run-closings_example :
    (rank opened ≤ rank (run linux events connection).0.state)
    × (disconnections (run linux events connection).1
        ≡ closings opened (run linux events connection).0.state)
    × (disconnections (run linux events connection).1 ≤ 1)
run-closings_example = run-closings linux events connection refl

handle_recv-error_example :
    let (outcome, t') = received linux reset 0 (fill_buffer [] connection) in
    let error = connection_error (of_error_code reset) in
    (t'.requested ≡ none)
    × ((((reset.value ≡ pos 4) ⊎ (reset.value ≡ pos 11))
          × (outcome ≡ ok (error ∷ []))
          × (t'.state ≡ opened))
        ⊎ ((¬ (reset.value ≡ pos 4))
            × (¬ (reset.value ≡ pos 11))
            × (outcome ≡ ok (error ∷ disconnected ∷ []))
            × (t'.state ≡ closed)))
handle_recv-error_example = handle_recv-error linux reset [] 0 connection refl refl refl
