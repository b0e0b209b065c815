-- ===== src/Service/History.antt =====
-- What may happen to a service of include/cercall/service.h, one operation after the other: a call
-- of its user, of a closure that it has given to a function, or a completion by the network library.
use cercall.Base.{ℕ, String, List, [], ◌∷◌}
use cercall.Error.{ErrorCode, System}
use cercall.Result.{Result}
use cercall.Archive.{Archive, Bytes, Arg, ResultTy, ResultVal}
use cercall.Serialization.{Serialization}
use cercall.Service.State.{Service, close_transport}
use cercall.Service.Dispatch.{call_closure}
use cercall.Service.Clients.{start, stop, broadcast_event, client_accepted, read_completed}

module _ (lib : Archive) where
  pub data Operation : Type 0 where
    starts : ErrorCode → ErrorCode → ErrorCode → Operation
    stops : Operation
    broadcasts : Arg lib → Operation
    accepts : ErrorCode → ℕ → List ErrorCode → Operation
    receives : ℕ → ErrorCode → Bytes → ℕ → Operation
    answers : ℕ → String → (r : ResultTy lib) → Result (ResultVal lib r) → Operation
    closes_client : ℕ → Operation

module _ {lib : Archive} (S : Serialization lib) (sys : System) (type_name : String) where
  -- An operation that throws leaves the state in which it threw.
  unfoldable pub step : Operation lib → Service lib → Service lib
  step (starts opened bound listening) s = (start S sys type_name opened bound listening s).1
  step stops s = (stop S sys type_name s).1
  step (broadcasts ev) s = (broadcast_event S sys type_name ev s).1
  step (accepts ec p results) s = (client_accepted S sys type_name ec p results s).1
  step (receives p ec bytes n) s = (read_completed S sys type_name p ec bytes n s).1
  step (answers p f r res) s = (call_closure S sys p f r res s).1
  step (closes_client p) s = (close_transport lib p s).1

  unfoldable pub run : List (Operation lib) → Service lib → Service lib
  run [] s = s
  run (op ∷ ops) s = run ops (step op s)
