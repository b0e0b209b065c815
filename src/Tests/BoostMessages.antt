-- ===== src/Tests/BoostMessages.antt =====
-- include/cercall/boost: a library with archives that have a state, and messages over it.
use cercall.Base.{ℕ, Bool, true, false, Option, none, some, List, [], ◌∷◌, ◌++◌, ◌≡◌, refl}
use cercall.Archive.{Bytes}
use cercall.Boost.Archives.{Library, Class, result_class, error_class, Writer, Reader}
use cercall.Boost.Connection.{Message, call, result, event}
use cercall.Error.{no_error, of_message}
use cercall.Base.Int.{pos}
use cercall.Tests.Codec.{
  save_int, load_int, save_string, load_string, load_value, load_prologue, load_int-save_int,
  load_string-save_string,
}

-- Whether an archive has met a result without a value, one with a value, and an error.
abbrev Seen : Type 0
Seen = Bool × Bool × Bool

abbrev met : Class (Unit {0}) → Seen → Bool
met (result_class none) (a, b, c) = a
met (result_class (some t)) (a, b, c) = b
met error_class (a, b, c) = c

abbrev meet : Class (Unit {0}) → Seen → Seen
meet (result_class none) (a, b, c) = (true, b, c)
meet (result_class (some t)) (a, b, c) = (a, true, c)
meet error_class (a, b, c) = (a, b, true)

abbrev class_bytes : Bool → Bytes
class_bytes true = []
class_bytes false = 5 ∷ []

abbrev save_class : Class (Unit {0}) → Writer Seen
save_class c s = (class_bytes (met c s), meet c s)

abbrev load_bytes : Bool → Seen → Bytes → Option (Unit {0} × Seen × Bytes)
load_bytes true s b = some (tt, s, b)
load_bytes false s [] = none
load_bytes false s (_ ∷ b) = some (tt, s, b)

abbrev load_class : Class (Unit {0}) → Reader Seen (Unit {0})
load_class c s b = load_bytes (met c s) (meet c s) b

pub load_bytes-class_bytes :
    (seen : Bool) (s : Seen) (rest : Bytes)
    → load_bytes seen s (class_bytes seen ++ rest) ≡ some (tt, s, rest)
load_bytes-class_bytes true s rest = refl
load_bytes-class_bytes false s rest = refl

-- A reader that does not look at the state.
abbrev in_state : {A : Type 0} → Option (A × Bytes) → Seen → Option (A × Seen × Bytes)
in_state none s = none
in_state (some (a, rest)) s = some (a, s, rest)

abbrev pub boost_numbers : Library
boost_numbers = record {
  Ty = Unit {0};
  Val = λ t. ℕ;
  default = λ t. 0;
  State = Seen;
  fresh = (false, false, false);
  signature = 7 ∷ [];
  ending = 9 ∷ [];
  load_signature = load_prologue;
  save_int = λ n s. (save_int n, s);
  load_int = λ s b. in_state (load_int b) s;
  save_string = λ t s. (save_string t, s);
  load_string = λ s b. in_state (load_string b) s;
  save_value = λ t n s. (n ∷ [], s);
  load_value = λ t s b. in_state (load_value b) s;
  save_class = save_class;
  load_class = load_class;
  load_signature_lem = λ rest. refl;
  load_int-Reads = λ n. record { at = λ s rest. rw (load_int-save_int n rest) refl };
  load_string-Reads = λ t. record { at = λ s rest. rw (load_string-save_string t rest) refl };
  load_value-Reads = λ t n. record { at = λ s rest. refl };
  load_class-Reads =
      λ c. record { at = λ s rest. load_bytes-class_bytes (met c s) (meet c s) rest };
}

-- Two results, the second of an error, between a call and an event.
abbrev messages : List (Message boost_numbers)
messages =
    ("f", call ((tt, 2) ∷ (tt, 3) ∷ []))
    ∷ ("f", result (some tt) (record { value = 5; error = no_error }))
    ∷ ("f", result (some tt) (record { value = 0; error = of_message (pos 115) "busy" }))
    ∷ ("I::broadcast_event", event (tt, 4))
    ∷ []
