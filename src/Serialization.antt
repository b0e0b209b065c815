-- ===== src/Serialization.antt =====
-- The parameter `Serialization` of the templates `Client`, `Service` and `FunctionDict`: the
-- operations that they call and the laws that they rely on. `cereal` fills it.
-- The first argument of an operation is whether it is given a reusable archive (`ar != nullptr`).
use cercall.Base.{String, ◌≡◌, Bool, true, Option, some, List, ◌∷◌, ◌++◌}
use cercall.Error.{Error, is_error}
use cercall.Result.{Result}
use cercall.Archive.{
  Archive, Bytes, Reader, Arg, ResultTy, ResultVal, void, default_result, received, received_error,
}
use cercall.Messenger.{reserve_message_header, strip_header}

-- A message under construction: the place of its header, and a body.
abbrev pub HasHeader : Bytes → Type 0
HasHeader msg = msg ≡ reserve_message_header ++ strip_header msg

-- `Result<T>(e)` for an error `e`.
abbrev pub failed : (lib : Archive) (t : ResultTy lib) → Error → Result (ResultVal lib t)
failed lib t e = record { value = default_result lib t; error = e }

pub record Serialization (lib : Archive) : Type 0 where
  pub reusable_archive : Bool
  pub serialize_call : Bool → String → List (Arg lib) → Bytes
  pub serialize_call_result : Bool → String → (t : ResultTy lib) → Result (ResultVal lib t) → Bytes
  pub serialize_event : Bool → String → Arg lib → Bytes
  pub deserialize_call : Bool → Bytes → Option (String × Bytes)
  pub deserialize_arg : (t : lib.Ty) → Reader (lib.Val t)
  pub deserialize_result : (t : ResultTy lib) → Reader (Result (ResultVal lib t))
  pub deserialize_event : (t : lib.Ty) → Reader (lib.Val t)
  -- The image of arguments in a call, and what follows the last value of a message.
  pub args_image : List (Arg lib) → Bytes
  pub tail : Bool → Bytes
  pub serialize_call-HasHeader :
      (reused : Bool) (func : String) (args : List (Arg lib))
      → HasHeader (serialize_call reused func args)
  pub serialize_call_result-HasHeader :
      (reused : Bool) (func : String) (t : ResultTy lib) (r : Result (ResultVal lib t))
      → HasHeader (serialize_call_result reused func t r)
  pub serialize_event-HasHeader :
      (reused : Bool) (func : String) (ev : Arg lib) → HasHeader (serialize_event reused func ev)
  pub deserialize_call-serialize_call :
      (reused : Bool) (func : String) (args : List (Arg lib))
      → deserialize_call reused (strip_header (serialize_call reused func args))
        ≡ some (func, args_image args ++ tail reused)
  pub deserialize_arg-args_image :
      (t : lib.Ty) (v : lib.Val t) (args : List (Arg lib)) (rest : Bytes)
      → deserialize_arg t (args_image ((t, v) ∷ args) ++ rest) ≡ some (v, args_image args ++ rest)
  pub deserialize_result-serialize_call_result :
      (reused : Bool) (func : String) (t : ResultTy lib) (r : Result (ResultVal lib t))
      → (image : Bytes) × (deserialize_call reused
            (strip_header (serialize_call_result reused func t r))
          ≡ some (func, image))
        × (deserialize_result t image ≡ some (received lib t r, tail reused))
  pub deserialize_result-error :
      (reused : Bool) (func : String) (t : ResultTy lib) (e : Error)
      → is_error e ≡ true
      → (image : Bytes) × (deserialize_call reused
            (strip_header (serialize_call_result reused func void (failed lib void e)))
          ≡ some (func, image))
        × (deserialize_result t image ≡ some (failed lib t (received_error e), tail reused))
  pub deserialize_event-serialize_event :
      (reused : Bool) (func : String) (t : lib.Ty) (v : lib.Val t)
      → (image : Bytes) × (deserialize_call reused
            (strip_header (serialize_event reused func (t, v)))
          ≡ some (func, image))
        × (deserialize_event t image ≡ some (v, tail reused))
