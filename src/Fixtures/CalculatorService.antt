-- ===== src/Fixtures/CalculatorService.antt =====
-- The service of unittests/calculatorservice.h, and the client of calculatorclient.h. A wait on the
-- service's timer is the network library's; the model records what the handler of each captures.
use Prim.Native.String.{◌++◌ as append_text}
use cercall.Base.{ℕ, Bool, true, false, Option, String, List, [], ◌∷◌, ◌++◌, length}
use cercall.Base.Exec.{Exec, lift, gets, modify, ◌>>=◌}
use cercall.Base.Int.{ℤ}
use cercall.Error.{System, no_error}
use cercall.Result.{of_value}
use cercall.Archive.{Archive, Arg, ResultTy, value}
use cercall.Serialization.{Serialization}
use cercall.FunctionDict.{ParamTy, plain, closure, Behaviour}
use cercall.Service.{Service, MemberFunction, call_closure, get_clients}
use cercall.Client
use cercall.Client.{Client}
use cercall.Fixtures.Calculator.{checked_sum}

abbrev pub calculator_name : String
calculator_name = "CalculatorInterface"

abbrev pub calculator_function : String → String
calculator_function name = append_text (append_text calculator_name "::") name

-- The types of the interface, as the archive knows them.
pub record CalculatorTypes (lib : Archive) : Type 0 where
  pub int8 : lib.Ty
  pub of_int8 : ℤ → lib.Val int8
  pub int16 : lib.Ty
  pub of_int16 : ℤ → lib.Val int16
  pub int32 : lib.Ty
  pub of_int32 : ℤ → lib.Val int32
  pub int32s : lib.Ty
  pub of_int32s : List ℤ → lib.Val int32s
  pub int64s : lib.Ty
  pub pointer : lib.Ty
  pub of_pointer : Option ℤ → lib.Val pointer
  pub size : lib.Ty
  pub of_size : ℕ → lib.Val size

-- A call of `add_and_delay_result` whose handler waits: its numbers, the client to answer, and
-- whether the wait has been cancelled.
pub record Delayed : Type 0 where
  pub a : ℤ
  pub b : ℤ
  pub client : ℕ
  pub cancelled : Bool

abbrev cancel_all : List Delayed → List Delayed
cancel_all [] = []
cancel_all (d ∷ delayed) = record d { cancelled = true } ∷ cancel_all delayed

module _ (lib : Archive) where
  -- `closed` is whether `myServiceCloseAction` has been called.
  pub record CalculatorService : Type 0 where
    pub service : Service lib
    pub delayed : List Delayed
    pub closed : Bool

  abbrev pub on_service : {A : Type 0} → Exec (Service lib) A → Exec CalculatorService A
  on_service m c = let (o, s) = m c.service in (o, record c { service = s })

  -- `expires_from_now` cancels the waits of earlier calls.
  unfoldable pub add_and_delay_result : ℤ → ℤ → ℕ → Exec CalculatorService (Unit {0})
  add_and_delay_result a b client = modify (λ c. record c {
    delayed =
        cancel_all c.delayed ++ record { a = a; b = b; client = client; cancelled = false } ∷ [];
  })

  unfoldable pub close_service : Exec CalculatorService (Unit {0})
  close_service = modify (λ c. record c { closed = true })

module _ {lib : Archive} (S : Serialization lib) (sys : System) (types : CalculatorTypes lib) where
  -- The handler that `add_and_delay_result` has given to the timer answers whatever the error code
  -- is: also when a later call has cancelled the wait.
  unfoldable pub delayed_result : Delayed → Exec (CalculatorService lib) (Unit {0})
  unfolding of_value
  delayed_result d = do
    sum ← lift (checked_sum d.a d.b)
    on_service lib (
        call_closure S sys d.client (calculator_function "add_and_delay_result") (value types.int32)
          (of_value (types.of_int32 sum) no_error))

  -- The number of connected clients, for the closure of the client that calls.
  unfoldable pub get_connected_clients_count : ℕ → Exec (CalculatorService lib) (Unit {0})
  unfolding of_value
  get_connected_clients_count client = do
    numConnected ← gets (λ c. length (get_clients lib c.service))
    on_service lib (
        call_closure S sys client (calculator_function "get_connected_clients_count")
          (value types.size) (of_value (types.of_size numConnected) no_error))

  member :
      ((r : ResultTy lib) → List (Arg lib) → Behaviour lib r)
      → String
      → List (ParamTy lib)
      → MemberFunction S sys calculator_name
  member function name params = record { name = name; params = params; function = function }

  -- What the constructor adds to the dictionary, for what the functions do: those that answer with a
  -- closure, and the one-way function.
  unfoldable pub calculator_functions :
      (String → (r : ResultTy lib) → List (Arg lib) → Behaviour lib r)
      → List (MemberFunction S sys calculator_name)
  unfolding member
  calculator_functions does =
      member (does "add") "add" (
        plain types.int8 ∷ plain types.int16 ∷ plain types.int32 ∷ closure (value types.int32) ∷ [])
      ∷ member (does "add_vector") "add_vector"
          (plain types.int32s ∷ plain types.int32s ∷ closure (value types.int64s) ∷ [])
      ∷ member (does "add_and_delay_result") "add_and_delay_result"
          (plain types.int32 ∷ plain types.int32 ∷ closure (value types.int32) ∷ [])
      ∷ member (does "get_connected_clients_count") "get_connected_clients_count"
          (closure (value types.size) ∷ [])
      ∷ member (does "add_by_pointers") "add_by_pointers"
          (plain types.pointer ∷ plain types.pointer ∷ closure (value types.int32) ∷ [])
      ∷ []

  unfoldable pub one_way_functions :
      (String → (r : ResultTy lib) → List (Arg lib) → Behaviour lib r)
      → List (MemberFunction S sys calculator_name)
  unfolding member
  one_way_functions does = member (does "close_service") "close_service" [] ∷ []

-- `ClientCallQueueSize`
abbrev pub call_queue_size : ℕ
call_queue_size = 3

-- `CalculatorClient`, for the number of the closure that each call is given.
module _ {lib : Archive} (S : Serialization lib) (types : CalculatorTypes lib) where
  send_call : String → ℕ → ResultTy lib → List (Arg lib) → Exec (Client lib) (Unit {0})
  send_call name cl r args =
      Client.send_call S calculator_name call_queue_size name
        (record { closure = cl; result_type = r }) args

  unfoldable pub call_add : ℤ → ℤ → ℤ → ℕ → Exec (Client lib) (Unit {0})
  unfolding send_call
  call_add a b c cl = send_call "add" cl (value types.int32) (
      (types.int8, types.of_int8 a)
      ∷ (types.int16, types.of_int16 b)
      ∷ (types.int32, types.of_int32 c)
      ∷ [])

  unfoldable pub call_add_and_delay_result : ℤ → ℤ → ℕ → Exec (Client lib) (Unit {0})
  unfolding send_call
  call_add_and_delay_result a b cl =
      send_call "add_and_delay_result" cl (value types.int32)
        ((types.int32, types.of_int32 a) ∷ (types.int32, types.of_int32 b) ∷ [])

  unfoldable pub call_add_vector : List ℤ → List ℤ → ℕ → Exec (Client lib) (Unit {0})
  unfolding send_call
  call_add_vector a b cl =
      send_call "add_vector" cl (value types.int64s)
        ((types.int32s, types.of_int32s a) ∷ (types.int32s, types.of_int32s b) ∷ [])

  unfoldable pub call_add_by_pointers : Option ℤ → Option ℤ → ℕ → Exec (Client lib) (Unit {0})
  unfolding send_call
  call_add_by_pointers a b cl =
      send_call "add_by_pointers" cl (value types.int32)
        ((types.pointer, types.of_pointer a) ∷ (types.pointer, types.of_pointer b) ∷ [])

  -- The call of the one-way function.
  unfoldable pub call_close_service : Exec (Client lib) (Unit {0})
  call_close_service = Client.send_one_way_call S calculator_name call_queue_size "close_service" []

  unfoldable pub call_get_connected_clients_count : ℕ → Exec (Client lib) (Unit {0})
  unfolding send_call
  call_get_connected_clients_count cl =
      send_call "get_connected_clients_count" cl (value types.size) []
