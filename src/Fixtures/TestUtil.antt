-- ===== src/Fixtures/TestUtil.antt =====
-- unittests/testutil.h: how a test opens its client, and how it waits for a closure.
use cercall.Base.{
  ℕ, zero, suc, ◌≤◌, ◌≡◌, refl, Bool, true, false, Option, String, [], Bool-cases, inl, inr, arith,
  if◌then◌else◌,
}
use cercall.Base.Exec.{Outcome, ok, throws, aborts, undefined, out_of_fuel, runtime_error}
use cercall.Error.{ErrorCode}
use cercall.Archive.{Archive}
use cercall.Serialization.{Serialization}
use cercall.Client.{Client, EventTy, new_client, open_client, destroy_client}

-- `attempts` is what the network library gives for each attempt to resolve the name of the service
-- and connect to it.
module _ {lib : Archive} (S : Serialization lib) (type_name : String) (max_calls : ℕ)
    (event_type : EventTy lib) (attempts : ℕ → Option ErrorCode) (thread : ℕ) where
  -- A client that is not open is destroyed before the next attempt.
  next_attempt : Outcome (Unit {0}) → Outcome (Client lib) → Outcome (Client lib)
  next_attempt (ok a) later = later
  next_attempt (throws x) later = throws x
  next_attempt aborts later = aborts
  next_attempt undefined later = undefined
  next_attempt out_of_fuel later = out_of_fuel

  -- An exception is printed and thrown again.
  unless_open : Outcome Bool × Client lib → Outcome (Client lib) → Outcome (Client lib)
  unless_open (ok true, c) later = ok c
  unless_open (ok false, c) later =
      next_attempt (destroy_client S type_name max_calls event_type c).0 later
  unless_open (throws x, c) later = throws x
  unless_open (aborts, c) later = aborts
  unless_open (undefined, c) later = undefined
  unless_open (out_of_fuel, c) later = out_of_fuel

  abbrev attempt : ℕ → Outcome Bool × Client lib
  attempt n = open_client S type_name max_calls event_type (attempts n) (new_client lib thread [])

  -- `while(retry-- > 0)`
  unfoldable pub retry_open : ℕ → ℕ → Outcome (Client lib)
  unfolding unless_open next_attempt
  retry_open zero n = throws (runtime_error "Could not connect to test server")
  retry_open (suc retry) n = let later = retry_open retry (suc n) in unless_open (attempt n) later

  unfoldable pub create_open_client : Outcome (Client lib)
  unfolding retry_open
  create_open_client = retry_open 4 0

  -- A service that refuses every attempt is reported after the last one.
  retry_open-refused :
      (c : ℕ → Client lib)
      → ((n : ℕ) → attempt n ≡ (ok false, c n))
      → ((n : ℕ) → (destroy_client S type_name max_calls event_type (c n)).0 ≡ ok tt)
      → (retry n : ℕ)
      → retry_open retry n ≡ throws (runtime_error "Could not connect to test server")
  unfolding retry_open
  retry_open-refused c refused ends zero n = refl
  retry_open-refused c refused ends (suc retry) n =
      rw (refused n, ends n) (retry_open-refused c refused ends retry (suc n))

-- `run_one` is the network library's: it runs one handler that is ready.
module _ {W : Type 0} (closure_called : W → Bool) (run_one : W → W) where
  unfoldable pub process_io_events : ℕ → W → Bool × W
  process_io_events zero w = (closure_called w, w)
  process_io_events (suc max_num_handlers) w =
      let later = process_io_events max_num_handlers (run_one w) in
      if closure_called w then (true, w) else later

  abbrev handled : ℕ → W → W
  handled zero w = w
  handled (suc n) w = handled n (run_one w)

  -- A closure that is called within the handlers that may run is seen, and no more handlers run than
  -- it takes.
  process_io_events-called :
      (n max : ℕ) (w : W)
      → n ≤ max
      → closure_called (handled n w) ≡ true
      → (k : ℕ) × (k ≤ n) × (process_io_events max w ≡ (true, handled k w))
  unfolding process_io_events
  process_io_events-called zero zero w h called = (0, omega arith, rw called refl)
  process_io_events-called zero (suc max) w h called = (0, omega arith, rw called refl)
  process_io_events-called (suc n) zero w h called = ground arith
  process_io_events-called (suc n) (suc max) w h called = elim (Bool-cases (closure_called w)) [
    | inl now ↦ (0, omega arith, rw now refl)
    | inr later ↦
        let (k, le, same) = process_io_events-called n max (run_one w) (omega arith) called in
        (suc k, omega arith, rw later same)
  ]
