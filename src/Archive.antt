-- ===== src/Archive.antt =====
-- What the code uses of a serialization library: an output archive appends the image of a value to
-- its stream, and an input archive reads the values back in the same order, or throws. The value
-- types are the library's, and the images are its own. An archive made for one message may begin by
-- a prologue (the opening of a JSON or XML document) and end by an epilogue; a reused one writes
-- neither.
use cercall.Base.{ℕ, String, ◌≡◌, Option, none, some, List, ◌++◌, if◌then◌else◌}
use cercall.Base.Int.{ℤ, is_zero}
use cercall.Error.{Error}
use cercall.Result.{Result}

abbrev pub Bytes : Type 0
Bytes = List ℕ

-- A read from an input archive: `none` when the library throws.
abbrev pub Reader {ℓ} : Type ℓ → Type ℓ
Reader A = Bytes → Option (A × Bytes)

module _ {ℓ} {A : Type ℓ} where
  abbrev pub pure : A → Reader A
  pure a s = some (a, s)

module _ {ℓ} {A B : Type ℓ} where
  infixl 5 ◌>>=◌
  abbrev pub ◌>>=◌ : Reader A → (A → Reader B) → Reader B
  ◌>>=◌ m f s = elim (m s) [ none ↦ none | some (a, s') ↦ f a s' ]

pub record Archive : Type 1 where
  pub Ty : Type 0
  pub Val : Ty → Type 0
  pub default : (t : Ty) → Val t
  pub prologue : Bytes
  pub epilogue : Bytes
  pub save_int : ℤ → Bytes
  pub save_string : String → Bytes
  pub save_value : (t : Ty) → Val t → Bytes
  pub load_prologue : Bytes → Option Bytes
  pub load_int : Reader ℤ
  pub load_string : Reader String
  pub load_value : (t : Ty) → Reader (Val t)
  pub load_prologue_lem : (rest : Bytes) → load_prologue (prologue ++ rest) ≡ some rest
  pub load_int-save : (n : ℤ) (rest : Bytes) → load_int (save_int n ++ rest) ≡ some (n, rest)
  pub load_string-save :
      (s : String) (rest : Bytes) → load_string (save_string s ++ rest) ≡ some (s, rest)
  pub load_value-save :
      (t : Ty) (v : Val t) (rest : Bytes) → load_value t (save_value t v ++ rest) ≡ some (v, rest)

-- The error that a peer reads: its code and message.
abbrev pub received_error : Error → Error
received_error e = record { code = e.code; category = none; message = e.message }

module _ (lib : Archive) where
  -- A C++ value with its type.
  abbrev pub Arg : Type 0
  Arg = (t : lib.Ty) × lib.Val t

  abbrev pub arg_type : Arg → lib.Ty
  arg_type a = a.0

  -- The type of a function's result: `void`, or a type of values.
  pub data ResultTy : Type 0 where
    void : ResultTy
    value : lib.Ty → ResultTy

  abbrev pub ResultVal : ResultTy → Type 0
  ResultVal void = Unit {0}
  ResultVal (value t) = lib.Val t

  abbrev pub default_result : (t : ResultTy) → ResultVal t
  default_result void = tt
  default_result (value t) = lib.default t

  -- What is left of a result after its way through an archive: of its error the code and the
  -- message, and its value if the code is 0.
  abbrev pub received : (t : ResultTy) → Result (ResultVal t) → Result (ResultVal t)
  received t r = record {
    value = if is_zero r.error.code then r.value else default_result t;
    error = received_error r.error;
  }
