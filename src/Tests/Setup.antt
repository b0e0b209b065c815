-- ===== src/Tests/Setup.antt =====
-- A client and a service for the tests: the service has one function, which adds two numbers.
use cercall.Base.{ℕ, ◌+◌, true, false, none, some, List, [], ◌∷◌}
use cercall.Base.Int.{pos}
use cercall.Error.{ErrorCode, System, no_error}
use cercall.Result.{Result}
use cercall.Archive.{Arg, ResultTy, ResultVal, value, void}
use cercall.Serialization.{Serialization}
use cercall.Cereal.RoundTrip.{cereal}
use cercall.Transport.{Transport, opened}
use cercall.Messenger.{new_messenger}
use cercall.FunctionDict.{FuncDict, Behaviour, FunctionCaller}
use cercall.Client.{Client, ClosureFunction}
use cercall.Service.{Service}
use cercall.Tests.Codec.{numbers}

abbrev pub plain_cereal : Serialization numbers
plain_cereal = cereal numbers false

abbrev pub linux : System
linux = record { category = 1; message = λ n. "error" }

abbrev pub number : ResultTy numbers
number = value tt

abbrev pub sum : List (Arg numbers) → ℕ
sum [] = 0
sum ((t, n) ∷ args) = n + sum args

abbrev pub sum_of : (r : ResultTy numbers) → List (Arg numbers) → ResultVal numbers r
sum_of void args = tt
sum_of (value t) args = sum args

-- The function gives its closure the sum of its arguments.
abbrev pub add : (r : ResultTy numbers) → List (Arg numbers) → Behaviour numbers r
add r args = record {
  results = record { value = sum_of r args; error = no_error } ∷ [];
  thrown = none;
}

abbrev pub add_caller : FunctionCaller numbers
add_caller = record {
  one_way = false;
  result_type = number;
  args_tuple = tt ∷ tt ∷ [];
  func = add number;
}

abbrev pub dictionary : FuncDict numbers
dictionary = ("Calc::add", record { func = add_caller; one_way = false }) ∷ []

abbrev pub two_and_three : List (Arg numbers)
two_and_three = (tt, 2) ∷ (tt, 3) ∷ []

abbrev pub five : Result ℕ
five = record { value = 5; error = no_error }

abbrev pub connection : Transport
connection = record {
  state = opened;
  has_listener = true;
  buffer = [];
  requested = some 4;
  sent = [];
  write_results = [];
}

abbrev pub idle_client : Client numbers
idle_client = record {
  event_listeners = 1 ∷ 2 ∷ [];
  transport = connection;
  archives = false;
  messenger = new_messenger;
  call_queue = [];
  closures = [];
  thread_id = 0;
  caller = 0;
  calls = [];
}

abbrev pub add_closure : ClosureFunction numbers
add_closure = record { closure = 10; result_type = number }

abbrev pub other_closure : ClosureFunction numbers
other_closure = record { closure = 11; result_type = number }

-- A client that waits for a result.
abbrev pub busy_client : Client numbers
busy_client = record idle_client { closures = ("Calc::add", add_closure) ∷ [] }

-- A service with a client at the address 8.
abbrev pub service : Service numbers
service = record {
  transports = (8, connection) ∷ [];
  clients = (8, record { messenger = new_messenger; archives = false }) ∷ [];
  pending_calls = [];
  func_dict = dictionary;
  acceptor = record { is_open = true; has_listener = true; accepting = 1 };
  thread_id = 0;
  caller = 0;
}

abbrev pub waiting_service : Service numbers
waiting_service = record service { pending_calls = ("Calc::add", 8) ∷ [] }

abbrev pub success : ErrorCode
success = record { value = pos 0; category = 1; message = "" }
