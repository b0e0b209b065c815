-- ===== src/Boost.antt =====
-- include/cercall/boost/serialization.h: calls, results and events as messages, over archives that
-- have a state. Each operation first empties, or fills, the shared stream of its direction. A pointer
-- to an archive is the archive's state, `none` for a null pointer: an archive is then made for the
-- message. A function that writes gives the message and the state of the archive that it was given.
pub mod Archives
pub mod Types
pub mod Connection
use Archives.{Library, Writer, Reader, result_class, nothing, pure, ◌>>=◌, ◌>>>◌}
use Types.{save_object, load_object, save_result, load_result, ResultVal}
use cercall.Base.{String, Bool, true, false, Option, none, some, List, [], ◌∷◌, ◌++◌}
use cercall.Result.{Result}
use cercall.Archive.{Bytes}
use cercall.Messenger.{reserve_message_header}

-- Whether `get_arch_option` has the flag `no_header`, for a serialization that is `Reusable` or not.
unfoldable pub get_arch_option : Bool → Bool
get_arch_option reusable = if_reusable reusable
  where
    if_reusable : Bool → Bool
    if_reusable true = true
    if_reusable false = false

module _ (lib : Library) where
  -- A value with its type.
  abbrev pub Arg : Type 0
  Arg = (t : lib.Ty) × lib.Val t

  -- An input archive that a handler reads on from: its state, and what is left of the stream.
  abbrev pub Input : Type 0
  Input = lib.State × Bytes

  -- `serialize_args`, whose overloads take a first, a last or no argument.
  unfoldable pub serialize_args : List Arg → Writer lib.State
  serialize_args [] = nothing
  serialize_args ((t, arg) ∷ []) = lib.save_value t arg
  serialize_args ((t, arg) ∷ next ∷ args) = lib.save_value t arg >>> serialize_args (next ∷ args)

  unfoldable pub deserialize_arg : (t : lib.Ty) → Input → Option (lib.Val t × lib.State × Bytes)
  deserialize_arg t (s, image) = lib.load_value t s image

  unfoldable pub deserialize_result :
      (t : Option lib.Ty) → Input → Option (Result (ResultVal lib t) × lib.State × Bytes)
  deserialize_result t (s, image) = load_object lib (result_class t) (load_result lib t) s image

  unfoldable pub deserialize_event : (t : lib.Ty) → Input → Option (lib.Val t × lib.State × Bytes)
  deserialize_event t (s, image) = lib.load_value t s image

  module _ (reusable : Bool) where
    -- What the constructor of an archive writes, or reads.
    abbrev pub opening : Bool → Bytes
    opening true = []
    opening false = lib.signature

    abbrev pub load_opening : Bool → Bytes → Option Bytes
    load_opening true stream = some stream
    load_opening false stream = lib.load_signature stream

    opened_input : Option Bytes → Option (Option lib.State)
    opened_input none = none
    opened_input (some stream) = some (some lib.fresh)

    created_input : Bool → Bytes → Option (Option lib.State)
    created_input true stream = opened_input (load_opening (get_arch_option reusable) stream)
    created_input false stream = some none

    -- `create_input_archive`, with `stream` in the shared stream: `none` when the constructor throws.
    unfoldable pub create_input_archive : Bytes → Option (Option lib.State)
    unfolding opened_input created_input
    create_input_archive stream = created_input reusable stream

    -- `create_output_archive`; what its constructor writes is taken out of the stream before the
    -- first message.
    unfoldable pub create_output_archive : Option lib.State
    create_output_archive = if_reusable reusable
      where
        if_reusable : Bool → Option lib.State
        if_reusable true = some lib.fresh
        if_reusable false = none

    -- What is written to the archive, behind the place of the header.
    unfoldable pub archived : Option lib.State → Writer lib.State → Bytes × Option lib.State
    archived (some s) image =
        let (bytes, s') = image s in (reserve_message_header ++ bytes, some s')
    archived none image =
        let (bytes, s') = image lib.fresh in
        (
          reserve_message_header ++ (opening (get_arch_option reusable) ++ (bytes ++ lib.ending)),
          none,
        )

    unfoldable pub serialize_call : Option lib.State → String → List Arg → Bytes × Option lib.State
    serialize_call ar functionName args =
        archived ar (lib.save_string functionName >>> serialize_args args)

    unfoldable pub serialize_call_result :
        Option lib.State
        → String
        → (t : Option lib.Ty) → Result (ResultVal lib t)
        → Bytes × Option lib.State
    serialize_call_result ar functionName t res =
        archived ar (
          lib.save_string functionName >>> save_object lib (result_class t) (save_result lib t res))

    unfoldable pub serialize_event : Option lib.State → String → Arg → Bytes × Option lib.State
    serialize_event ar funcName (t, ev) =
        archived ar (lib.save_string funcName >>> lib.save_value t ev)

    made_for_message : Option Bytes → Option (String × lib.State × Bytes)
    made_for_message none = none
    made_for_message (some image) = lib.load_string lib.fresh image

    -- The function's name, and the archive that the handler reads on from.
    unfoldable pub deserialize_call : Option lib.State → Bytes → Option (String × lib.State × Bytes)
    unfolding made_for_message
    deserialize_call (some s) msg = lib.load_string s msg
    deserialize_call none msg = made_for_message (load_opening (get_arch_option reusable) msg)
