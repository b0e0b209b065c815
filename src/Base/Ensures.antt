-- ===== src/Base/Ensures.antt =====
-- Postconditions of `Exec`: a call ends, and if it returns, its result and its state are right.
use mathlib.Core.Path.{◌≡◌, refl, subst}
use native.Mathlib.Omega.{arith}
use mathlib.Core.Logic.{◌≢◌}
use mathlib.Core.Bool.{Bool, true, false}
use cercall.Base.Tests.{if◌then◌else◌}
use cercall.Base.Exec.{
  Outcome, ok, throws, aborts, undefined, out_of_fuel, Exception, Exec, pure, throw, o_assert,
  continue, lift, ◌>>=◌, ◌>>◌,
}

pub record Ensures {S A : Type 0} (Q : A → S → Type 0) (r : Outcome A × S) : Type 0 where
  pub ends : r.0 ≢ out_of_fuel
  pub result : (a : A) → r.0 ≡ ok a → Q a r.1

module _ {S A : Type 0} {Q : A → S → Type 0} where
  pub Ensures-ok : (a : A) (s : S) → Q a s → Ensures Q (ok a, s)
  Ensures-ok a s q = record { ends = λ e. cc; result = λ b e. subst_result b (ground arith) }
    where
      subst_result : (b : A) → a ≡ b → Q b s
      subst_result b e = subst (λ x. Q x s) e q

  pub Ensures-throw : (x : Exception) (s : S) → Ensures Q (throws x, s)
  Ensures-throw x s = record { ends = λ e. cc; result = λ b e. absurd (cc) }

  pub Ensures-aborts : (s : S) → Ensures Q (aborts, s)
  Ensures-aborts s = record { ends = λ e. cc; result = λ b e. absurd (cc) }

  pub Ensures-undefined : (s : S) → Ensures Q (undefined, s)
  Ensures-undefined s = record { ends = λ e. cc; result = λ b e. absurd (cc) }

module _ {S A B : Type 0} {Q : A → S → Type 0} {R : B → S → Type 0} where
  Ensures-continue :
      (o : Outcome A) (s : S) (f : A → Exec S B)
      → Ensures Q (o, s)
      → ((a : A) (s' : S) → Q a s' → Ensures R (f a s'))
      → Ensures R (continue o f s)
  Ensures-continue (ok a) s f h k = k a s (h.result a refl)
  Ensures-continue (throws x) s f h k = Ensures-throw x s
  Ensures-continue aborts s f h k = Ensures-aborts s
  Ensures-continue undefined s f h k = Ensures-undefined s
  Ensures-continue out_of_fuel s f h k = absurd (h.ends refl)

  pub Ensures-bind :
      (m : Exec S A) (f : A → Exec S B) (s : S)
      → Ensures Q (m s)
      → ((a : A) (s' : S) → Q a s' → Ensures R (f a s'))
      → Ensures R ((m >>= f) s)
  Ensures-bind m f s h k = Ensures-continue (m s).0 (m s).1 f h k

module _ {S A : Type 0} {Q R : A → S → Type 0} where
  pub Ensures-mono :
      (r : Outcome A × S) → ((a : A) (s : S) → Q a s → R a s) → Ensures Q r → Ensures R r
  Ensures-mono r k h = record { ends = h.ends; result = λ a e. k a r.1 (h.result a e) }

module _ {S B : Type 0} {R : B → S → Type 0} where
  pub Ensures-assert :
      (b : Bool) (k : Exec S B) (s : S)
      → (b ≡ true → Ensures R (k s))
      → Ensures R ((o_assert b >> k) s)
  Ensures-assert true k s h = h refl
  Ensures-assert false k s h = Ensures-aborts s

  pub Ensures-guard :
      (b : Bool) (x : Exception) (k : Exec S B) (s : S)
      → (b ≡ false → Ensures R (k s))
      → Ensures R (((if b then throw x else pure tt) >> k) s)
  Ensures-guard true x k s h = Ensures-throw x s
  Ensures-guard false x k s h = h refl

  pub Ensures-defined :
      (b : Bool) (k : Exec S B) (s : S)
      → (b ≡ true → Ensures R (k s))
      → Ensures R (((if b then pure tt else lift undefined) >> k) s)
  Ensures-defined true k s h = h refl
  Ensures-defined false k s h = Ensures-undefined s

  pub Ensures-if :
      (b : Bool) (m n : Exec S B) (s : S)
      → (b ≡ true → Ensures R (m s))
      → (b ≡ false → Ensures R (n s))
      → Ensures R ((if b then m else n) s)
  Ensures-if true m n s hm hn = hm refl
  Ensures-if false m n s hm hn = hn refl
