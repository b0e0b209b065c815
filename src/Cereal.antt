-- ===== src/Cereal.antt =====
-- include/cercall/cereal/serialization.h: calls, results and events as messages. Each operation
-- empties the shared `outStringStream` or fills the shared `inStringStream` first, so that a message
-- depends on its arguments alone.
pub mod Types
pub mod RoundTrip
use Types.{save_result, load_result}
use cercall.Base.{String, Bool, true, false, Option, none, some, List, [], ◌∷◌, ◌++◌}
use cercall.Result.{Result}
use cercall.Archive.{Archive, Bytes, Reader, Arg, ResultTy, ResultVal}
use cercall.Messenger.{reserve_message_header}

module _ (lib : Archive) where
  -- What the output archive writes: one made for the message ends when its scope does.
  unfoldable pub archived : Bool → Bytes → Bytes
  archived true image = image
  archived false image = lib.prologue ++ (image ++ lib.epilogue)

  unfoldable pub serialize_args : List (Arg lib) → Bytes
  serialize_args [] = []
  serialize_args ((t, v) ∷ args) = lib.save_value t v ++ serialize_args args

  unfoldable pub serialize_call : Bool → String → List (Arg lib) → Bytes
  serialize_call ar functionName args =
      reserve_message_header ++ archived ar (lib.save_string functionName ++ serialize_args args)

  unfoldable pub serialize_call_result :
      Bool → String → (t : ResultTy lib) → Result (ResultVal lib t) → Bytes
  serialize_call_result ar functionName t res =
      reserve_message_header ++ archived ar (lib.save_string functionName ++ save_result lib t res)

  unfoldable pub serialize_event : Bool → String → Arg lib → Bytes
  serialize_event ar funcName (t, ev) =
      reserve_message_header ++ archived ar (lib.save_string funcName ++ lib.save_value t ev)

  -- The function's name, and the archive that the handler reads on from.
  unfoldable pub deserialize_call : Bool → Bytes → Option (String × Bytes)
  deserialize_call true msg = lib.load_string msg
  deserialize_call false msg = elim (lib.load_prologue msg) [
    | none ↦ none
    | some image ↦ lib.load_string image
  ]

  unfoldable pub deserialize_arg : (t : lib.Ty) → Reader (lib.Val t)
  deserialize_arg t = lib.load_value t

  unfoldable pub deserialize_result : (t : ResultTy lib) → Reader (Result (ResultVal lib t))
  deserialize_result t = load_result lib t

  unfoldable pub deserialize_event : (t : lib.Ty) → Reader (lib.Val t)
  deserialize_event t = lib.load_value t
