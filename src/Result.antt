-- ===== src/Result.antt =====
-- `Result` of include/cercall/cercall.h: a value and an error. `Result<void>` is `Result Unit`.
use cercall.Base.{Bool, not}
use cercall.Error.{Error, is_error}

pub record Result (T : Type 0) : Type 0 where
  pub value : T
  pub error : Error

module _ {T : Type 0} where
  -- `explicit Result(const U& r, const Error& e = Error())`
  unfoldable pub of_value : T → Error → Result T
  of_value r e = record { value = r; error = e }

  -- `explicit Result(const Error& e)`, the value of `BaseResult()` being `value{}`
  unfoldable pub of_error : T → Error → Result T
  of_error default e = record { value = default; error = e }

  unfoldable pub set_error : Result T → Error → Result T
  set_error r e = record r { error = e }

  unfoldable pub set_value : Result T → T → Result T
  set_value r v = record r { value = v }

  -- `explicit operator bool()`
  unfoldable pub is_ok : Result T → Bool
  is_ok r = not (is_error r.error)
