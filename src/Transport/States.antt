-- ===== src/Transport/States.antt =====
-- The states of a transport over its operations, and how often it notifies its listener.
use cercall.Base.{ℕ, ◌+◌, ◌≤◌, ◌≡◌, refl, ◌∙◌, true, List, [], ◌∷◌, ◌++◌, arith}
use cercall.Base.Exec.{Outcome, ok, Exec, pure, ◌>>=◌}
use cercall.Error.{ErrorCode, System}
use cercall.Archive.{Bytes}
use cercall.Transport.{
  Transport, State, new, opened, closed, Notification, disconnected, read, close, write, start,
  handle_recv, finish_recv,
}

-- What may happen to a transport: a call of it, or a completion by the network library.
pub data Event : Type 0 where
  reads : ℕ → Event
  writes : Bytes → Event
  closes : Event
  opens : Event
  receives : ErrorCode → ℕ → Event

-- A call that does not return has notified nobody.
abbrev notes_of : Outcome (List Notification) × Transport → Transport × List Notification
notes_of (ok notes, t) = (t, notes)
notes_of (_, t) = (t, [])

-- Both parts of `handle_recv`, for a listener that returns and leaves the transport alone.
abbrev pub received : System → ErrorCode → ℕ → Exec Transport (List Notification)
received sys ec n = do
  notes ← handle_recv sys ec n
  closing ← finish_recv ec
  pure (notes ++ closing)

unfoldable pub step : System → Event → Transport → Transport × List Notification
step sys (reads n) t = (read n t, [])
step sys (writes msg) t = let (_, t', notes) = write msg t in (t', notes)
step sys closes t = close t
step sys opens t = notes_of (start t)
step sys (receives ec n) t = notes_of (received sys ec n t)

unfoldable pub run : System → List Event → Transport → Transport × List Notification
run sys [] t = (t, [])
run sys (e ∷ es) t =
    let (t', notes) = step sys e t in let (t'', later) = run sys es t' in (t'', notes ++ later)

abbrev pub disconnections : List Notification → ℕ
disconnections [] = 0
disconnections (disconnected ∷ notes) = disconnections notes + 1
disconnections (_ ∷ notes) = disconnections notes

abbrev pub rank : State → ℕ
rank new = 0
rank opened = 1
rank closed = 2

-- 1 if the transport has been closed on the way from `s` to `s'`.
abbrev pub closings : State → State → ℕ
closings closed _ = 0
closings _ closed = 1
closings _ _ = 0

-- One event: the listener stays, the state moves forward, and a closing is notified.
record Moves (t : Transport) (r : Transport × List Notification) : Type 0 where
  listening : r.0.has_listener ≡ t.has_listener
  forward : rank t.state ≤ rank r.0.state
  notified : t.has_listener ≡ true → disconnections r.1 ≡ closings t.state r.0.state

write-Moves :
    (msg : Bytes) (results : List ErrorCode) (t : Transport)
    → t.write_results ≡ results
    → Moves t ((write msg t).1, (write msg t).2)
unfolding write
write-Moves msg [] t e = record {
  listening = ground arith;
  forward = ground arith;
  notified = λ l. ground arith;
}
write-Moves msg (ec ∷ rest) t e = record {
  listening = ground arith;
  forward = ground arith;
  notified = λ l. ground arith;
}

handle_recv-Moves :
    (sys : System) (ec : ErrorCode) (n : ℕ) (t : Transport)
    → Moves t (notes_of (received sys ec n t))
unfolding handle_recv finish_recv
handle_recv-Moves sys ec n t = record {
  listening = ground arith;
  forward = ground arith;
  notified = λ l. ground arith;
}

step-Moves : (sys : System) (e : Event) (t : Transport) → Moves t (step sys e t)
unfolding step read close start
step-Moves sys (reads n) t = record {
  listening = refl;
  forward = omega arith;
  notified = λ l. ground arith;
}
step-Moves sys (writes msg) t = write-Moves msg t.write_results t refl
step-Moves sys closes t = record {
  listening = ground arith;
  forward = ground arith;
  notified = λ l. ground arith;
}
step-Moves sys opens t = record {
  listening = ground arith;
  forward = ground arith;
  notified = λ l. ground arith;
}
step-Moves sys (receives ec n) t = handle_recv-Moves sys ec n t

disconnections-append :
    (xs ys : List Notification) → disconnections (xs ++ ys) ≡ disconnections xs + disconnections ys
disconnections-append [] ys = omega arith
disconnections-append (disconnected ∷ xs) ys = omega (arith, disconnections-append xs ys)
disconnections-append (_ ∷ xs) ys = omega (arith, disconnections-append xs ys)

closings_le : (s s' : State) → closings s s' ≤ 1
closings_le s s' = ground arith

closings_trans :
    (s s' s'' : State)
    → rank s ≤ rank s'
    → rank s' ≤ rank s''
    → closings s s' + closings s' s'' ≡ closings s s''
closings_trans s s' s'' h k = ground arith

run-Moves : (sys : System) (es : List Event) (t : Transport) → Moves t (run sys es t)
unfolding run
run-Moves sys [] t = record {
  listening = refl;
  forward = omega arith;
  notified = λ l. ground arith;
}
run-Moves sys (e ∷ es) t =
    let one = step-Moves sys e t in
    let more = run-Moves sys es (step sys e t).0 in
    record {
      listening = more.listening ∙ one.listening;
      forward = omega (arith, one.forward, more.forward);
      notified = λ l. omega (
        arith,
        disconnections-append (step sys e t).1 (run sys es (step sys e t).0).1,
        one.notified l,
        more.notified (one.listening ∙ l),
        closings_trans t.state (step sys e t).0.state (run sys es (step sys e t).0).0.state
            one.forward more.forward,
      );
    }

-- Over any events a transport with a listener moves forward from new to open to closed, and it
-- notifies its listener of a disconnection exactly as often as it is closed on the way, which is
-- at most once.
pub run-closings :
    (sys : System) (es : List Event) (t : Transport)
    → t.has_listener ≡ true
    → (rank t.state ≤ rank (run sys es t).0.state)
      × (disconnections (run sys es t).1 ≡ closings t.state (run sys es t).0.state)
      × (disconnections (run sys es t).1 ≤ 1)
run-closings sys es t l =
    let m = run-Moves sys es t in
    let n = m.notified l in
    (m.forward, n, omega (arith, n, closings_le t.state (run sys es t).0.state))
