-- ===== src/Tests/ClockCalls.antt =====
-- examples/cerclock: calls of the clock, and its client program.
use cercall.Base.{
  ℕ, ◌≡◌, refl, true, false, Option, none, some, String, [], ◌∷◌, ◌++◌, lookup, nat_beq,
  if◌then◌else◌, arith,
}
use cercall.Base.Exec.{ok, ◌>>◌}
use cercall.Base.Int.{ℤ, pos, pos_part, ◌+ℤ◌}
use cercall.Error.{no_error}
use cercall.Result.{of_value}
use cercall.Archive.{Archive, Bytes, Reader, Arg}
use cercall.Serialization.{Serialization}
use cercall.Cereal
use cercall.Cereal.RoundTrip.{cereal}
use cercall.Cereal.Types.{save_result}
use cercall.Messenger.{strip_header}
use cercall.Service.{find_pending_call}
use cercall.Clock.{ClockTypes, ClockService, alarm_event}
use cercall.Clock.Dispatch.{ClockArgs, dispatch_clock}
use cercall.Clock.Calls.{
  set_alarm_name, alarm_args, clock_dictionary, with_alarm, set_alarm-answered,
}
use cercall.Clock.Client.{
  ClockProgram, stop_alarm_set, on_service_event, after_close, stop_alarm-closes,
}
use cercall.Tests.Codec.{
  numbers, save_int, load_int, load_int-save_int, save_string, load_string, load_string-save_string,
  load_prologue,
}
use cercall.Tests.Setup.{plain_cereal, linux, connection, idle_client}
use cercall.Tests.Clocks.{types, event_number}
use cercall.Tests.Services.{client_state}

-- An archive with two types of values, numbers and texts, for the parameters of the clock's functions.
data Kind : Type 0 where
  num : Kind
  text : Kind

abbrev Value : Kind → Type 0
Value num = ℤ
Value text = String

abbrev empty_value : (t : Kind) → Value t
empty_value num = pos 0
empty_value text = ""

abbrev save_value : (t : Kind) → Value t → Bytes
save_value num n = save_int n
save_value text s = save_string s

abbrev load_value : (t : Kind) → Reader (Value t)
load_value num = load_int
load_value text = load_string

load_value-save_value :
    (t : Kind) (v : Value t) (rest : Bytes) → load_value t (save_value t v ++ rest) ≡ some (v, rest)
load_value-save_value num n rest = load_int-save_int n rest
load_value-save_value text s rest = load_string-save_string s rest

abbrev typed : Archive
typed = record {
  Ty = Kind;
  Val = Value;
  default = empty_value;
  prologue = 7 ∷ [];
  epilogue = 9 ∷ [];
  save_int = save_int;
  save_string = save_string;
  save_value = save_value;
  load_prologue = load_prologue;
  load_int = load_int;
  load_string = load_string;
  load_value = load_value;
  load_prologue_lem = λ rest. refl;
  load_int-save = load_int-save_int;
  load_string-save = load_string-save_string;
  load_value-save = load_value-save_value;
}

abbrev typed_cereal : Serialization typed
typed_cereal = cereal typed false

abbrev clock_types : ClockTypes typed
clock_types = record {
  time_point = num;
  of_time = λ n. n;
  milliseconds = num;
  of_milliseconds = λ n. n;
  duration = num;
  of_duration = λ n. n;
  text = text;
  of_text = λ s. s;
  alarm_id = num;
  of_alarm_id = pos;
  int = num;
  of_int = λ n. n;
  event = num;
  of_event = λ ev. pos (event_number ev);
}

abbrev number_of : Arg typed → Option ℤ
number_of (num, n) = some n
number_of (text, s) = none

abbrev text_of : Arg typed → Option String
text_of (num, n) = none
text_of (text, s) = some s

abbrev id_of : Arg typed → Option ℕ
id_of (num, n) = some (pos_part n)
id_of (text, s) = none

abbrev clock_args : ClockArgs clock_types
clock_args = record {
  as_milliseconds = number_of;
  as_duration = number_of;
  as_text = text_of;
  as_alarm_id = id_of;
  as_duration-of = λ d. refl;
  as_text-of = λ s. refl;
}

-- The clock of a thread 0, with a client at the address 8.
abbrev serving_clock : ClockService typed
serving_clock = record {
  service = record {
    transports = (8, connection) ∷ [];
    clients = (8, client_state) ∷ [];
    pending_calls = [];
    func_dict = clock_dictionary typed_cereal linux clock_types clock_args 100 (pos 0) (pos 3);
    acceptor = record { is_open = true; has_listener = true; accepting = 1 };
    thread_id = 0;
    caller = 0;
  };
  alarms = [];
  tick_expiry = pos 0;
  tick_interval = pos 0;
  waits = [];
  next_alarm_id = 1;
  work = true;
  stopped = false;
}

set_alarm-answered_example :
    (archive : Bytes) × (typed_cereal.deserialize_call false (
        strip_header (
          typed_cereal.serialize_call false set_alarm_name
            (alarm_args typed_cereal linux clock_types clock_args "tea" (pos 5))))
      ≡ some (set_alarm_name, archive))
    × (dispatch_clock typed_cereal linux clock_types clock_args 100
          (pos 0)
          (pos 3)
          8
          set_alarm_name
          archive
          serving_clock
        ≡ (
          ok tt,
          with_alarm typed_cereal linux clock_types clock_args 8 connection 100 "tea"
              (pos 3 +ℤ pos 5)
              serving_clock,
        ))
unfolding find_pending_call lookup cereal Cereal.serialize_call_result Cereal.archived save_result
    of_value
set_alarm-answered_example =
    set_alarm-answered typed_cereal linux clock_types clock_args 8 client_state connection false 100
      (pos 0) (pos 3) "tea" (pos 5) serving_clock refl refl refl refl
      (record { found = refl; is_opened = refl; taken = refl }) (omega arith) refl

abbrev program : ClockProgram numbers
program = record { client = idle_client; stop_alarm = 0; work = true; stopped = false }

stop_alarm-closes_example :
    (stop_alarm_set numbers (of_value 7 no_error)
        >> on_service_event plain_cereal types (some (alarm_event 7 "stopClient")))
      program
    ≡ (
      ok tt,
      record program {
        stop_alarm = 7;
        client =
            if nat_beq 7 7 then after_close plain_cereal types program.client else program.client;
      },
    )
unfolding lookup cereal Cereal.serialize_call Cereal.archived Cereal.serialize_args
stop_alarm-closes_example =
    stop_alarm-closes plain_cereal types 7 7 "stopClient" program refl refl refl refl (omega arith)
