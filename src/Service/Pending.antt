-- ===== src/Service/Pending.antt =====
-- The pending calls of a service of include/cercall/service.h.
use cercall.Base.{
  ℕ, suc, ◌+◌, ◌≤◌, ◌≡◌, refl, true, false, ◌&&◌, String, List, [], ◌∷◌, ◌++◌, string_eq, nat_eq,
  Bool-cases, inl, inr, ◌==◌, if◌then◌else◌, arith,
}
use cercall.Service.Dispatch.{find_pending_call, erase_pending_call}

-- How often a call is pending.
abbrev pub times_pending : String → ℕ → List (String × ℕ) → ℕ
times_pending f p [] = 0
times_pending f p ((g, q) ∷ calls) =
    (if (g == f) && (q == p) then 1 else 0) + times_pending f p calls

-- No client has two calls of a function pending.
abbrev pub IsSingle : List (String × ℕ) → Type 0
IsSingle calls = (f : String) (p : ℕ) → times_pending f p calls ≤ 1

find_pending_call-none :
    (f : String) (p : ℕ) (calls : List (String × ℕ))
    → find_pending_call f p calls ≡ false
    → times_pending f p calls ≡ 0
unfolding find_pending_call
find_pending_call-none f p [] h = refl
find_pending_call-none f p ((g, q) ∷ calls) h = ground (arith, find_pending_call-none f p calls)

pub find_pending_call-zero :
    (f : String) (p : ℕ) (calls : List (String × ℕ))
    → times_pending f p calls ≡ 0
    → find_pending_call f p calls ≡ false
unfolding find_pending_call
find_pending_call-zero f p [] h = refl
find_pending_call-zero f p ((g, q) ∷ calls) h = ground (arith, find_pending_call-zero f p calls)

pub find_pending_call-one :
    (f : String) (p : ℕ) (calls : List (String × ℕ))
    → times_pending f p calls ≡ 1
    → find_pending_call f p calls ≡ true
find_pending_call-one f p calls h = elim (Bool-cases (find_pending_call f p calls)) [
  | inl e ↦ e
  | inr e ↦ ground (arith, find_pending_call-none f p calls e)
]

times_pending-append :
    (f : String) (p : ℕ) (calls more : List (String × ℕ))
    → times_pending f p (calls ++ more) ≡ times_pending f p calls + times_pending f p more
times_pending-append f p [] more = omega arith
times_pending-append f p ((g, q) ∷ calls) more = omega (arith, times_pending-append f p calls more)

pub add_pending-IsSingle :
    (f : String) (p : ℕ) (calls : List (String × ℕ))
    → find_pending_call f p calls ≡ false
    → IsSingle calls
    → IsSingle (calls ++ (f, p) ∷ [])
add_pending-IsSingle f p calls new single g q = ground (
  arith,
  times_pending-append g q calls ((f, p) ∷ []),
  find_pending_call-none f p calls new,
  single g q,
  string_eq.same_iff f g,
  nat_eq.same_iff p q,
)

times_pending-erase :
    (f : String) (p : ℕ) (g : String) (q : ℕ) (calls : List (String × ℕ))
    → times_pending g q (erase_pending_call f p calls) ≤ times_pending g q calls
unfolding erase_pending_call
times_pending-erase f p g q [] = omega arith
times_pending-erase f p g q ((h, r) ∷ calls) = ground (arith, times_pending-erase f p g q calls)

pub erase_pending-IsSingle :
    (f : String) (p : ℕ) (calls : List (String × ℕ))
    → IsSingle calls
    → IsSingle (erase_pending_call f p calls)
erase_pending-IsSingle f p calls single g q =
    omega (arith, times_pending-erase f p g q calls, single g q)

-- A pending call that is answered is not pending any more.
pub erase_pending-done :
    (f : String) (p : ℕ) (calls : List (String × ℕ))
    → find_pending_call f p calls ≡ true
    → suc (times_pending f p (erase_pending_call f p calls)) ≡ times_pending f p calls
unfolding erase_pending_call find_pending_call
erase_pending-done f p [] h = ground arith
erase_pending-done f p ((g, q) ∷ calls) h = ground (arith, erase_pending-done f p calls)
