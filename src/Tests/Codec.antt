-- ===== src/Tests/Codec.antt =====
-- A serialization library for the tests, in place of that of Cereal: its values are numbers, and a
-- text is a 1 and a character's number for each of its characters, and a 0.
use Prim.Native.Nat.{Ordering, compare}
use Prim.Native.Char.{Char, char, code, nul, IsLt}
use Prim.Native.String.{[] as empty, ◌∷◌ as ◌&◌}
use cercall.Base.{ℕ, zero, suc, ◌≡◌, refl, Option, none, some, String, [], ◌∷◌, ◌++◌}
use cercall.Base.Int.{ℤ, pos, negsuc}
use cercall.Archive.{Archive, Bytes, Reader}

-- Whether a number is a character's: the clauses of the library's `IsScalar`.
abbrev Both : Ordering → Ordering → Type 0
Both Ordering.lt o = IsLt o
Both Ordering.eq _ = ⊥
Both Ordering.gt _ = ⊥

abbrev Scalar : Ordering → Ordering → Ordering → Type 0
Scalar Ordering.lt _ _ = Unit
Scalar Ordering.eq o p = Both o p
Scalar Ordering.gt o p = Both o p

abbrev is_lt : (o : Ordering) → Option (IsLt o)
is_lt Ordering.lt = some tt
is_lt Ordering.eq = none
is_lt Ordering.gt = none

abbrev both : (o p : Ordering) → Option (Both o p)
both Ordering.lt o = is_lt o
both Ordering.eq _ = none
both Ordering.gt _ = none

abbrev scalar : (o p q : Ordering) → Option (Scalar o p q)
scalar Ordering.lt _ _ = some tt
scalar Ordering.eq o p = both o p
scalar Ordering.gt o p = both o p

is_lt_lem : (o : Ordering) (x : IsLt o) → is_lt o ≡ some x
is_lt_lem Ordering.lt x = refl
is_lt_lem Ordering.eq x = elim x [ ]
is_lt_lem Ordering.gt x = elim x [ ]

both_lem : (o p : Ordering) (x : Both o p) → both o p ≡ some x
both_lem Ordering.lt p x = is_lt_lem p x
both_lem Ordering.eq p x = elim x [ ]
both_lem Ordering.gt p x = elim x [ ]

scalar_lem : (o p q : Ordering) (x : Scalar o p q) → scalar o p q ≡ some x
scalar_lem Ordering.lt p q x = refl
scalar_lem Ordering.eq p q x = both_lem p q x
scalar_lem Ordering.gt p q x = both_lem p q x

abbrev scalar_number :
    (n : ℕ) → Option (Scalar (compare n 55296) (compare 57343 n) (compare n 1114112))
scalar_number n = scalar (compare n 55296) (compare 57343 n) (compare n 1114112)

abbrev char_of : ℕ → Char
char_of n = elim (scalar_number n) [ none ↦ nul | some p ↦ char n p ]

char_of-code : (c : Char) → char_of (code c) ≡ c
char_of-code (char n p) =
    rw (scalar_lem (compare n 55296) (compare 57343 n) (compare n 1114112) p, char_of)

abbrev pub save_int : ℤ → Bytes
save_int (pos n) = 0 ∷ n ∷ []
save_int (negsuc n) = 1 ∷ n ∷ []

abbrev pub load_int : Reader ℤ
load_int (zero ∷ n ∷ rest) = some (pos n, rest)
load_int (suc _ ∷ n ∷ rest) = some (negsuc n, rest)
load_int _ = none

pub load_int-save_int : (n : ℤ) (rest : Bytes) → load_int (save_int n ++ rest) ≡ some (n, rest)
load_int-save_int (pos n) rest = refl
load_int-save_int (negsuc n) rest = refl

abbrev pub save_string : String → Bytes
save_string empty = 0 ∷ []
save_string (c & s) = 1 ∷ code c ∷ save_string s

abbrev with_char : Char → Option (String × Bytes) → Option (String × Bytes)
with_char c none = none
with_char c (some (s, rest)) = some (c & s, rest)

abbrev pub load_string : Reader String
load_string (zero ∷ rest) = some (empty, rest)
load_string (suc _ ∷ n ∷ rest) = with_char (char_of n) (load_string rest)
load_string _ = none

pub load_string-save_string :
    (s : String) (rest : Bytes) → load_string (save_string s ++ rest) ≡ some (s, rest)
load_string-save_string empty rest = refl
load_string-save_string (c & s) rest =
    rw (char_of-code c) (rw (load_string-save_string s rest) refl)

abbrev pub load_value : Reader ℕ
load_value [] = none
load_value (n ∷ rest) = some (n, rest)

abbrev pub load_prologue : Bytes → Option Bytes
load_prologue [] = none
load_prologue (n ∷ rest) = some rest

abbrev pub numbers : Archive
numbers = record {
  Ty = Unit {0};
  Val = λ t. ℕ;
  default = λ t. 0;
  prologue = 7 ∷ [];
  epilogue = 9 ∷ [];
  save_int = save_int;
  save_string = save_string;
  save_value = λ t n. n ∷ [];
  load_prologue = load_prologue;
  load_int = load_int;
  load_string = load_string;
  load_value = λ t. load_value;
  load_prologue_lem = λ rest. refl;
  load_int-save = load_int-save_int;
  load_string-save = load_string-save_string;
  load_value-save = λ t v rest. refl;
}
