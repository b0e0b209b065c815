-- ===== src/Base/Exec.antt =====
-- Code that reads and writes a state, and may not return. What was written before an exception
-- stays written, so the state comes back beside it.
use Prim.Native.String.{String}
use mathlib.Core.Bool.{Bool, true, false}

-- The exceptions of the C++ standard library that the code throws; `archive_error` stands for what
-- a serialization library throws on input that it cannot read.
pub data Exception : Type 0 where
  logic_error : String → Exception
  runtime_error : String → Exception
  length_error : String → Exception
  archive_error : Exception

-- How a call ends. `aborts` is a failed `o_assert` or an exception that leaves a destructor,
-- `undefined` is an access that C++ leaves undefined, and `out_of_fuel` is no end at all within the
-- rounds that the model was given.
pub data Outcome {ℓ} (A : Type ℓ) : Type ℓ where
  ok : A → Outcome A
  throws : Exception → Outcome A
  aborts : Outcome A
  undefined : Outcome A
  out_of_fuel : Outcome A

abbrev pub Exec {ℓ} : Type ℓ → Type ℓ → Type ℓ
Exec S A = S → Outcome A × S

module _ {ℓ} {S A : Type ℓ} where
  abbrev pub pure : A → Exec S A
  pure a s = (ok a, s)

  abbrev pub throw : Exception → Exec S A
  throw x s = (throws x, s)

  abbrev pub gets : (S → A) → Exec S A
  gets f s = (ok (f s), s)

  abbrev pub lift : Outcome A → Exec S A
  lift o s = (o, s)

module _ {ℓ} {S A B : Type ℓ} where
  abbrev pub continue : Outcome A → (A → Exec S B) → Exec S B
  continue (ok a) f s = f a s
  continue (throws x) f s = (throws x, s)
  continue aborts f s = (aborts, s)
  continue undefined f s = (undefined, s)
  continue out_of_fuel f s = (out_of_fuel, s)

  infixl 5 ◌>>=◌ ◌>>◌
  abbrev pub ◌>>=◌ : Exec S A → (A → Exec S B) → Exec S B
  ◌>>=◌ m f s = let (o, s') = m s in continue o f s'

  abbrev pub ◌>>◌ : Exec S A → Exec S B → Exec S B
  m >> n = m >>= λ _. n

module _ {S : Type 0} where
  abbrev pub modify : (S → S) → Exec S (Unit {0})
  modify f s = (ok tt, f s)

  -- `o_assert` of log.h in a build without NDEBUG.
  abbrev pub o_assert : Bool → Exec S (Unit {0})
  o_assert true s = (ok tt, s)
  o_assert false s = (aborts, s)

-- An exception that leaves a destructor ends the program.
abbrev pub terminated : Outcome (Unit {0}) → Outcome (Unit {0})
terminated (throws x) = aborts
terminated o = o

abbrev pub no_throw : {S : Type 0} → Exec S (Unit {0}) → Exec S (Unit {0})
no_throw m s = let (o, s') = m s in (terminated o, s')
