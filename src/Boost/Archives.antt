-- ===== src/Boost/Archives.antt =====
-- What include/cercall/boost uses of Boost.Serialization. An archive has a state: before the first
-- object of a class it writes information on the class (its version, and whether it is tracked),
-- and before later ones nothing. Input and output archives have the same states.
use cercall.Base.{String, ◌≡◌, Option, none, some, [], ◌++◌, append_assoc, refl}
use cercall.Base.Int.{ℤ}
use cercall.Archive.{Bytes}

-- The classes that cercall adds; the type of a result is `none` for `void`.
pub data Class (Ty : Type 0) : Type 0 where
  result_class : Option Ty → Class Ty
  error_class : Class Ty

-- What is written in a state, and the state after it.
abbrev pub Writer : Type 0 → Type 0
Writer State = State → Bytes × State

-- A read in a state: `none` when the library throws.
abbrev pub Reader : Type 0 → Type 0 → Type 0
Reader State A = State → Bytes → Option (A × State × Bytes)

-- A reader gives the value that was written in the same state, and goes to the same state.
pub record Reads {State A : Type 0} (r : Reader State A) (w : Writer State) (a : A) : Type 0 where
  pub at : (s : State) (rest : Bytes) → r s ((w s).0 ++ rest) ≡ some (a, (w s).1, rest)

module _ {State : Type 0} where
  abbrev pub nothing : Writer State
  nothing s = ([], s)

  infixr 5 ◌>>>◌
  abbrev pub ◌>>>◌ : Writer State → Writer State → Writer State
  ◌>>>◌ w v s = let (b, s') = w s in let (c, s'') = v s' in (b ++ c, s'')

  abbrev pub pure : {A : Type 0} → A → Reader State A
  pure a s b = some (a, s, b)

  infixl 5 ◌>>=◌
  abbrev pub ◌>>=◌ : {A B : Type 0} → Reader State A → (A → Reader State B) → Reader State B
  ◌>>=◌ m f s b = elim (m s b) [ none ↦ none | some (a, s', b') ↦ f a s' b' ]

  pub Reads-pure : {A : Type 0} (a : A) → Reads (pure a) nothing a
  Reads-pure a = record { at = λ s rest. refl }

  pub Reads-bind :
      {A B : Type 0} {r : Reader State A} (f : A → Reader State B) {w v : Writer State} {a : A}
      {b : B}
      → Reads r w a
      → Reads (f a) v b
      → Reads (r >>= f) (w >>> v) b
  Reads-bind f {w = w} {v = v} h k = record {
    at = λ s rest.
        rw (◌>>=◌, append_assoc (w s).0 (v (w s).1).0 rest, h.at s ((v (w s).1).0 ++ rest))
          (k.at (w s).1 rest);
  }

  pub Reads-last :
      {A B : Type 0} {r : Reader State A} (f : A → B) {w : Writer State} {a : A}
      → Reads r w a
      → Reads (r >>= λ x. pure (f x)) w (f a)
  Reads-last f h = record { at = λ s rest. rw (◌>>=◌, h.at s rest) refl }

pub record Library : Type 1 where
  pub Ty : Type 0
  pub Val : Ty → Type 0
  pub default : (t : Ty) → Val t
  pub State : Type 0
  pub fresh : State
  -- What an archive begins with, unless it is made with the flag `no_header`, and ends with.
  pub signature : Bytes
  pub ending : Bytes
  pub load_signature : Bytes → Option Bytes
  pub save_int : ℤ → Writer State
  pub load_int : Reader State ℤ
  pub save_string : String → Writer State
  pub load_string : Reader State String
  pub save_value : (t : Ty) → Val t → Writer State
  pub load_value : (t : Ty) → Reader State (Val t)
  pub save_class : Class Ty → Writer State
  pub load_class : Class Ty → Reader State (Unit {0})
  pub load_signature_lem : (rest : Bytes) → load_signature (signature ++ rest) ≡ some rest
  pub load_int-Reads : (n : ℤ) → Reads load_int (save_int n) n
  pub load_string-Reads : (s : String) → Reads load_string (save_string s) s
  pub load_value-Reads : (t : Ty) (v : Val t) → Reads (load_value t) (save_value t v) v
  pub load_class-Reads : (c : Class Ty) → Reads (load_class c) (save_class c) tt
