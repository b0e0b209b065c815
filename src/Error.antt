-- ===== src/Error.antt =====
-- include/cercall/error.h, and the error of include/cercall/asio/errorcode.h: an error is a code of
-- the network library, 0 for none, with the address of its category and a message.
-- `ErrorCode` is the network library's error code; its message is what its category says of it.
use cercall.Base.{ℕ, String, Bool, not, Option, none, some, if◌then◌else◌}
use cercall.Base.Int.{ℤ, pos, is_zero}

pub record ErrorCode : Type 0 where
  pub value : ℤ
  pub category : ℕ
  pub message : String

pub record Error : Type 0 where
  pub code : ℤ
  pub category : Option ℕ
  pub message : String

-- `Error()`
abbrev pub no_error : Error
no_error = record { code = pos 0; category = none; message = "" }

-- `explicit Error(const EC& ec)`
unfoldable pub of_error_code : ErrorCode → Error
of_error_code ec = record {
  code = ec.value;
  category = some ec.category;
  message = if is_zero ec.value then "" else ec.message;
}

-- `explicit Error(const int netLibErrorCode, const std::string& errorMessage)`
unfoldable pub of_message : ℤ → String → Error
of_message netLibCode message = record { code = netLibCode; category = none; message = message }

-- `explicit operator bool()`
abbrev pub is_error : Error → Bool
is_error e = not (is_zero e.code)

-- What the system gives: the address and the messages of `system_category()`.
pub record System : Type 0 where
  pub category : ℕ
  pub message : ℤ → String

-- An error code of the system's category, and its error numbers on Linux.
abbrev pub system_code : System → ℤ → ErrorCode
system_code sys n = record { value = n; category = sys.category; message = sys.message n }

abbrev pub eintr : ℤ
eintr = pos 4

abbrev pub eagain : ℤ
eagain = pos 11

abbrev pub ewouldblock : ℤ
ewouldblock = eagain

abbrev pub eisconn : ℤ
eisconn = pos 106

abbrev pub enotconn : ℤ
enotconn = pos 107

abbrev pub einprogress : ℤ
einprogress = pos 115

abbrev pub ecanceled : ℤ
ecanceled = pos 125

unfoldable pub operation_in_progress : System → Error
unfolding of_error_code
operation_in_progress sys = of_error_code (system_code sys einprogress)
