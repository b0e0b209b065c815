-- ===== src/Cereal/RoundTrip.antt =====
-- What is written by include/cercall/cereal/serialization.h is read back, so it is a `Serialization`.
use cercall.Base.{
  String, ◌≡◌, refl, Bool, true, false, some, List, [], ◌∷◌, ◌++◌, append-nil, append_assoc,
}
use cercall.Error.{Error, is_error}
use cercall.Result.{Result}
use cercall.Archive.{Archive, Bytes, Arg, ResultTy, ResultVal, void, received, received_error}
use cercall.Messenger.{strip_header}
use cercall.Serialization.{Serialization, failed}
use cercall.Cereal.Types.{save_result, load_result-save_result, load_result-save_error}
use cercall.Cereal.{
  archived, serialize_args, serialize_call, serialize_call_result, serialize_event,
  deserialize_call, deserialize_arg, deserialize_result, deserialize_event,
}

module _ (lib : Archive) (reusable : Bool) where
  -- What follows the last value of a message.
  abbrev pub tail : Bool → Bytes
  tail true = []
  tail false = lib.epilogue

  deserialize_call-archived :
      (ar : Bool) (func : String) (image : Bytes)
      → deserialize_call lib ar (archived lib ar (lib.save_string func ++ image))
        ≡ some (func, image ++ tail ar)
  unfolding deserialize_call archived
  deserialize_call-archived true func image = rw (lib.load_string-save, append-nil)
  deserialize_call-archived false func image =
      rw (lib.load_prologue_lem, deserialize_call) (rw (append_assoc, lib.load_string-save))

  pub deserialize_arg-serialize_args :
      (t : lib.Ty) (v : lib.Val t) (args : List (Arg lib)) (rest : Bytes)
      → deserialize_arg lib t (serialize_args lib ((t, v) ∷ args) ++ rest)
        ≡ some (v, serialize_args lib args ++ rest)
  unfolding deserialize_arg serialize_args
  deserialize_arg-serialize_args t v args rest = rw (append_assoc, lib.load_value-save)

  -- The message of a result is read as the function's name and an image from which the result is read
  -- back, as it passes through an archive, with or without a reused archive.
  pub deserialize_result-serialize :
      (ar : Bool) (func : String) (t : ResultTy lib) (r : Result (ResultVal lib t))
      → (image : Bytes) × (deserialize_call lib ar
            (strip_header (serialize_call_result lib ar func t r))
          ≡ some (func, image))
        × (deserialize_result lib t image ≡ some (received lib t r, tail ar))
  unfolding deserialize_result serialize_call_result
  deserialize_result-serialize ar func t r = (
    save_result lib t r ++ tail ar,
    deserialize_call-archived ar func (save_result lib t r),
    load_result-save_result lib t r (tail ar),
  )

  pub deserialize_result-serialize_error :
      (ar : Bool) (func : String) (t : ResultTy lib) (e : Error)
      → is_error e ≡ true
      → (image : Bytes) × (deserialize_call lib ar
            (strip_header (serialize_call_result lib ar func void (failed lib void e)))
          ≡ some (func, image))
        × (deserialize_result lib t image ≡ some (failed lib t (received_error e), tail ar))
  unfolding deserialize_result serialize_call_result
  deserialize_result-serialize_error ar func t e h = (
    save_result lib void (failed lib void e) ++ tail ar,
    deserialize_call-archived ar func (save_result lib void (failed lib void e)),
    load_result-save_error lib t e (tail ar) h,
  )

  pub deserialize_event-serialize :
      (ar : Bool) (func : String) (t : lib.Ty) (v : lib.Val t)
      → (image : Bytes) × (deserialize_call lib ar
            (strip_header (serialize_event lib ar func (t, v)))
          ≡ some (func, image))
        × (deserialize_event lib t image ≡ some (v, tail ar))
  unfolding deserialize_event serialize_event
  deserialize_event-serialize ar func t v = (
    lib.save_value t v ++ tail ar,
    deserialize_call-archived ar func (lib.save_value t v),
    lib.load_value-save t v (tail ar),
  )

  pub deserialize_call-serialize :
      (ar : Bool) (func : String) (args : List (Arg lib))
      → deserialize_call lib ar (strip_header (serialize_call lib ar func args))
        ≡ some (func, serialize_args lib args ++ tail ar)
  unfolding serialize_call
  deserialize_call-serialize ar func args =
      deserialize_call-archived ar func (serialize_args lib args)

  -- The struct `Serialization` of the file, for a library and its `Reusable` flag.
  unfoldable pub cereal : Serialization lib
  unfolding serialize_call serialize_call_result serialize_event
  cereal = record {
    reusable_archive = reusable;
    serialize_call = serialize_call lib;
    serialize_call_result = serialize_call_result lib;
    serialize_event = serialize_event lib;
    deserialize_call = deserialize_call lib;
    deserialize_arg = deserialize_arg lib;
    deserialize_result = deserialize_result lib;
    deserialize_event = deserialize_event lib;
    args_image = serialize_args lib;
    tail = tail;
    serialize_call-HasHeader = λ ar func args. refl;
    serialize_call_result-HasHeader = λ ar func t r. refl;
    serialize_event-HasHeader = λ ar func ev. refl;
    deserialize_call-serialize_call = deserialize_call-serialize;
    deserialize_arg-args_image = deserialize_arg-serialize_args;
    deserialize_result-serialize_call_result = deserialize_result-serialize;
    deserialize_result-error = deserialize_result-serialize_error;
    deserialize_event-serialize_event = deserialize_event-serialize;
  }
