-- ===== src/Boost/Connection.antt =====
-- Messages of include/cercall/boost/serialization.h over a connection: the ends make their archives when
-- it begins, and keep them, or make one for each message.
use cercall.Base.{String, Bool, Option, none, some, List, [], ◌∷◌, map}
use cercall.Result.{Result}
use cercall.Archive.{Bytes}
use cercall.Messenger.{strip_header}
use cercall.Boost.Archives.{Library, Writer, Reader, result_class, pure, ◌>>=◌}
use cercall.Boost.Types.{ResultVal, arrived, save_object, save_result}
use cercall.Boost.{
  Arg, serialize_args, deserialize_arg, deserialize_result, deserialize_event, serialize_call,
  serialize_call_result, serialize_event, deserialize_call,
}

module _ (lib : Library) where
  pub data Body : Type 0 where
    call : List (Arg lib) → Body
    result : (t : Option lib.Ty) → Result (ResultVal lib t) → Body
    event : Arg lib → Body

  abbrev pub Message : Type 0
  Message = String × Body

  -- The types that the receiver of a message reads.
  pub data Shape : Type 0 where
    call_of : List lib.Ty → Shape
    result_of : Option lib.Ty → Shape
    event_of : lib.Ty → Shape

  abbrev pub shape : Body → Shape
  shape (call args) = call_of (map (λ a. a.0) args)
  shape (result t r) = result_of t
  shape (event a) = event_of a.0

  -- What arrives of a message: of a result's error the code and the message, and the value without
  -- an error.
  abbrev pub through : Body → Body
  through (call args) = call args
  through (result t r) = result t (arrived lib t r)
  through (event a) = event a

  -- The arguments one after the other, as `FunctionCaller` reads them.
  read_args : List lib.Ty → Reader lib.State (List (Arg lib))
  read_args [] = pure []
  read_args (t ∷ ts) =
      (λ s b. deserialize_arg lib t (s, b)) >>= λ v. read_args ts >>= λ args. pure ((t, v) ∷ args)

  read_body : Shape → Reader lib.State Body
  read_body (call_of ts) = read_args ts >>= λ args. pure (call args)
  read_body (result_of t) = (λ s b. deserialize_result lib t (s, b)) >>= λ r. pure (result t r)
  read_body (event_of t) = (λ s b. deserialize_event lib t (s, b)) >>= λ v. pure (event (t, v))

  write_body : Body → Writer lib.State
  write_body (call args) = serialize_args lib args
  write_body (result t r) = save_object lib (result_class t) (save_result lib t r)
  write_body (event (t, v)) = lib.save_value t v

  abbrev pub expected : List Message → List Bytes → List (Shape × Bytes)
  expected (m ∷ ms) (msg ∷ msgs) = (shape m.1, strip_header msg) ∷ expected ms msgs
  expected _ _ = []

  abbrev pub arrives : Message → Message
  arrives (func, b) = (func, through b)

  module _ (reusable : Bool) where
    -- The message of a call, a result or an event, and the archive behind it.
    pub send : Option lib.State → Message → Bytes × Option lib.State
    send ar (func, call args) = serialize_call lib reusable ar func args
    send ar (func, result t r) = serialize_call_result lib reusable ar func t r
    send ar (func, event ev) = serialize_event lib reusable ar func ev

    -- An archive that was made for the message goes with it.
    abbrev kept : Option lib.State → lib.State → Option lib.State
    kept none s = none
    kept (some _) s = some s

    abbrev with_name :
        Option lib.State
        → String
        → Option (Body × lib.State × Bytes)
        → Option (Message × Option lib.State)
    with_name ar func none = none
    with_name ar func (some (b, s, rest)) = some ((func, b), kept ar s)

    abbrev read_message :
        Option lib.State
        → Shape
        → Option (String × lib.State × Bytes)
        → Option (Message × Option lib.State)
    read_message ar sh none = none
    read_message ar sh (some (func, s, image)) = with_name ar func (read_body sh s image)

    -- `none` when the library throws.
    pub receive : Option lib.State → Shape → Bytes → Option (Message × Option lib.State)
    receive ar sh msg = read_message ar sh (deserialize_call lib reusable ar msg)

    -- Messages in the order in which they are sent.
    pub send_all : Option lib.State → List Message → List Bytes × Option lib.State
    send_all ar [] = ([], ar)
    send_all ar (m ∷ ms) =
        let (msg, ar') = send ar m in let (msgs, ar'') = send_all ar' ms in (msg ∷ msgs, ar'')

    abbrev and_then :
        Option (Message × Option lib.State)
        → (Option lib.State → Option (List Message × Option lib.State))
        → Option (List Message × Option lib.State)
    and_then none later = none
    and_then (some (m, ar)) later = elim (later ar) [
      | none ↦ none
      | some (ms, ar') ↦ some (m ∷ ms, ar')
    ]

    -- The messages that arrive, with what is expected of each.
    pub receive_all :
        Option lib.State → List (Shape × Bytes) → Option (List Message × Option lib.State)
    receive_all ar [] = some ([], ar)
    receive_all ar ((sh, msg) ∷ msgs) = and_then (receive ar sh msg) (λ ar'. receive_all ar' msgs)
