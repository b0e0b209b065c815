-- ===== src/Base/Keeps.antt =====
-- Invariants of `Exec`: a call keeps `P`, however it ends. One rule for each way to build a call.
use mathlib.Core.Bool.{Bool, true, false}
use cercall.Base.Tests.{if◌then◌else◌}
use cercall.Base.Exec.{
  Outcome, ok, throws, aborts, undefined, out_of_fuel, Exception, Exec, pure, throw, lift, gets,
  modify, o_assert, continue, ◌>>=◌,
}

pub record Keeps {S A : Type 0} (P : S → Type 0) (m : Exec S A) : Type 0 where
  pub at : (s : S) → P s → P (m s).1

module _ {S A : Type 0} {P : S → Type 0} where
  pub Keeps-pure : (a : A) → Keeps P (pure a)
  Keeps-pure a = record { at = λ s h. h }

  pub Keeps-throw : (x : Exception) → Keeps P (throw {A = A} x)
  Keeps-throw x = record { at = λ s h. h }

  pub Keeps-lift : (o : Outcome A) → Keeps P (lift o)
  Keeps-lift o = record { at = λ s h. h }

  pub Keeps-gets : (f : S → A) → Keeps P (gets f)
  Keeps-gets f = record { at = λ s h. h }

  pub Keeps-if : (b : Bool) (m n : Exec S A) → Keeps P m → Keeps P n → Keeps P (if b then m else n)
  Keeps-if true m n km kn = km
  Keeps-if false m n km kn = kn

  -- A test of the state.
  pub Keeps-test :
      (b : S → Bool) (m n : Exec S A)
      → Keeps P m
      → Keeps P n
      → Keeps P (λ s. if b s then m s else n s)
  Keeps-test b m n km kn = record { at = λ s h. branch s h (b s) }
    where
      branch : (s : S) → P s → (t : Bool) → P ((if t then m s else n s)).1
      branch s h true = km.at s h
      branch s h false = kn.at s h

module _ {S : Type 0} {P : S → Type 0} where
  pub Keeps-modify : (f : S → S) → ((s : S) → P s → P (f s)) → Keeps P (modify f)
  Keeps-modify f h = record { at = h }

  pub Keeps-o_assert : (b : Bool) → Keeps P (o_assert b)
  Keeps-o_assert true = record { at = λ s h. h }
  Keeps-o_assert false = record { at = λ s h. h }

module _ {S A B : Type 0} {P : S → Type 0} where
  Keeps-continue :
      (o : Outcome A) (f : A → Exec S B) → ((a : A) → Keeps P (f a)) → Keeps P (continue o f)
  Keeps-continue (ok a) f k = k a
  Keeps-continue (throws x) f k = record { at = λ s h. h }
  Keeps-continue aborts f k = record { at = λ s h. h }
  Keeps-continue undefined f k = record { at = λ s h. h }
  Keeps-continue out_of_fuel f k = record { at = λ s h. h }

  pub Keeps-bind :
      (m : Exec S A) (f : A → Exec S B) → Keeps P m → ((a : A) → Keeps P (f a)) → Keeps P (m >>= f)
  Keeps-bind m f km kf = record { at = λ s h. (Keeps-continue (m s).0 f kf).at (m s).1 (km.at s h) }

  -- What follows a call that has kept `P`, whatever that took.
  pub Keeps-after :
      (m : Exec S A) (f : A → Exec S B) (s : S)
      → P (m s).1
      → ((a : A) → Keeps P (f a))
      → P ((m >>= f) s).1
  Keeps-after m f s h kf = (Keeps-continue (m s).0 f kf).at (m s).1 h

  pub Keeps-then : (m : Exec S A) (n : Exec S B) → Keeps P m → Keeps P n → Keeps P (m >>= λ _. n)
  Keeps-then m n km kn = Keeps-bind m (λ _. n) km (λ _. kn)

pub ruleset keeps_rules =
    (Keeps-pure, Keeps-throw, Keeps-lift, Keeps-gets, Keeps-if, Keeps-o_assert, Keeps-bind)
