-- ===== src/Fixtures/Calculator.antt =====
-- unittests/calculatorservice.h and calculatorclient.h. The numbers are C++ integers of a width that
-- the type of a parameter gives; a signed sum that does not fit is undefined, and a cast to a
-- narrower type wraps.
use cercall.Base.{
  ℕ, ◌+◌, ◌-◌, ◌%◌, ◌^◌, ◌≤◌, ◌<◌, ◌≡◌, refl, Bool, ◌||◌, Option, some, ◌⊎◌, List, [], ◌∷◌, ltb,
  leb, nat_beq, if◌then◌else◌, length, arith, Bool-cases, inl, inr,
}
use cercall.Base.Int.{ℤ, pos, negsuc, ◌+ℤ◌, pos_part, neg_part}
use cercall.Base.Exec.{Outcome, ok, throws, aborts, undefined, out_of_fuel}
use cercall.Error.{Error, no_error}
use cercall.Result.{Result, of_value, of_error}

abbrev int_min : ℤ
int_min = negsuc 2147483647

abbrev int_max : ℤ
int_max = pos 2147483647

-- `a > b`
abbrev gtℤ : ℤ → ℤ → Bool
gtℤ a b = ltb (pos_part b + neg_part a) (pos_part a + neg_part b)

-- `static_cast<int32_t>`
unfoldable pub to_int32 : ℤ → ℤ
to_int32 (pos n) = let m = n % 2 ^ 32 in if ltb m (2 ^ 31) then pos m else negsuc (2 ^ 32 - m - 1)
to_int32 (negsuc n) =
    let m = n % 2 ^ 32 in if ltb m (2 ^ 31) then negsuc m else pos (2 ^ 32 - m - 1)

-- `add`, for the error of `std::errc::value_too_large`. The sum is one of 64 bits, where it fits.
unfoldable pub add : Error → ℤ → ℤ → ℤ → Result ℤ
unfolding to_int32
add value_too_large a b c =
    let sum = a +ℤ b +ℤ c in
    if gtℤ sum int_max then of_error (pos 0) value_too_large else of_value (to_int32 sum) no_error

-- The closure gets the value, if there is one.
abbrev given : Outcome ℤ → Outcome (Result ℤ)
given (ok n) = ok (of_value n no_error)
given (throws x) = throws x
given aborts = aborts
given undefined = undefined
given out_of_fuel = out_of_fuel

-- `add_vector`: `std::plus<int64_t>` of each pair.
pairwise_sums : List ℤ → List ℤ → List ℤ
pairwise_sums [] _ = []
pairwise_sums (x ∷ xs) [] = []
pairwise_sums (x ∷ xs) (y ∷ ys) = (x +ℤ y) ∷ pairwise_sums xs ys

unfoldable pub add_vector : List ℤ → List ℤ → Result (List ℤ)
unfolding pairwise_sums
add_vector a b = of_value (if nat_beq (length a) (length b) then pairwise_sums a b else []) no_error

-- The sum of two 32-bit integers, which is undefined where it does not fit.
unfoldable pub checked_sum : ℤ → ℤ → Outcome ℤ
checked_sum a b = if gtℤ (a +ℤ b) int_max || gtℤ int_min (a +ℤ b) then undefined else ok (a +ℤ b)

-- `add_by_pointers`, for what the pointers point to: a null one is read through.
unfoldable pub add_by_pointers : Option ℤ → Option ℤ → Outcome (Result ℤ)
unfolding checked_sum
add_by_pointers (some a) (some b) = given (checked_sum a b)
add_by_pointers _ _ = undefined

-- The integers of a signed type of `w + 1` bits.
abbrev pub Fits : ℕ → ℤ → Type 0
Fits w n = (pos_part n < 2 ^ w) × (neg_part n ≤ 2 ^ w)

to_int32-Fits : (n : ℤ) → Fits 31 n → to_int32 n ≡ n
unfolding to_int32
to_int32-Fits (pos n) h = ground arith
to_int32-Fits (negsuc n) h = ground arith

to_int32-below :
    (n : ℤ) → 2 ^ 31 < neg_part n → neg_part n ≤ 2 ^ 32 → to_int32 n ≡ n +ℤ pos (2 ^ 32)
unfolding to_int32 ◌+ℤ◌
to_int32-below (pos n) h l = absurd (omega arith)
to_int32-below (negsuc n) h l = ground arith

-- The sum of three integers is not far below the least one of 32 bits.
sum-neg_part : (a b c : ℤ) → Fits 7 a → Fits 15 b → Fits 31 c → neg_part (a +ℤ b +ℤ c) ≤ 2 ^ 32
unfolding ◌+ℤ◌
sum-neg_part a b c fa fb fc = ground arith

abbrev pub sum_of : ℤ → ℤ → ℤ → ℤ
sum_of a b c = a +ℤ b +ℤ c

-- What `add` gives for three numbers of their types: their sum if it is one of 32 bits, the error
-- if it is above those, and, if it is below them, no error and the sum that has wrapped around.
pub add-sum :
    (e : Error) (a b c : ℤ)
    → Fits 7 a
    → Fits 15 b
    → Fits 31 c
    → (Fits 31 (sum_of a b c) × (add e a b c ≡ of_value (sum_of a b c) no_error))
      ⊎ ((2 ^ 31 ≤ pos_part (sum_of a b c)) × (add e a b c ≡ of_error (pos 0) e))
      ⊎ ((2 ^ 31 < neg_part (sum_of a b c))
          × (add e a b c ≡ of_value (sum_of a b c +ℤ pos (2 ^ 32)) no_error))
unfolding add
add-sum e a b c fa fb fc = elim (Bool-cases (gtℤ (sum_of a b c) int_max)) [
  | inl over ↦ inr (inl (ground arith, rw over refl))
  | inr fits ↦ elim (Bool-cases (leb (neg_part (sum_of a b c)) (2 ^ 31))) [
    | inl l ↦ inl (
      (ground arith, ground arith),
      rw (fits, to_int32-Fits (sum_of a b c) (ground arith, ground arith)) refl,
    )
    | inr l ↦ inr (
        inr (
          ground arith,
          rw (fits, to_int32-below (sum_of a b c) (ground arith) (sum-neg_part a b c fa fb fc))
              refl,
        ))
  ]
]
