-- ===== src/Client/History.antt =====
-- What may happen to a client of include/cercall/client.h, one operation after the other: a call of
-- its user, or a completion by the network library. A closure that calls the client is a later one.
use cercall.Base.{ℕ, Option, String, List, [], ◌∷◌}
use cercall.Error.{Error, ErrorCode, System}
use cercall.Archive.{Archive, Bytes, Arg}
use cercall.Serialization.{Serialization}
use cercall.Client.State.{Client, ClosureFunction, EventTy}
use cercall.Client.Sending.{send_call, send_one_way_call}
use cercall.Client.Connection.{
  add_listener, remove_listener, open_client, open_client_async, resolve_completed,
  connect_completed, close_client, read_completed,
}

module _ (lib : Archive) where
  pub data Operation : Type 0 where
    sends : String → ClosureFunction lib → List (Arg lib) → Operation
    sends_one_way : String → List (Arg lib) → Operation
    adds_listener : ℕ → Operation
    removes_listener : ℕ → Operation
    opens : Option ErrorCode → Operation
    opens_async : Error → Operation
    resolves : ErrorCode → Operation
    connects : ErrorCode → Operation
    closes : Operation
    receives : ErrorCode → Bytes → ℕ → Operation

module _ {lib : Archive} (S : Serialization lib) (sys : System) (type_name : String) (max_calls : ℕ)
    (event_type : EventTy lib) where
  -- An operation that throws leaves the state in which it threw.
  unfoldable pub step : Operation lib → Client lib → Client lib
  step (sends f cl args) c = (send_call S type_name max_calls f cl args c).1
  step (sends_one_way f args) c = (send_one_way_call S type_name max_calls f args c).1
  step (adds_listener l) c = add_listener S type_name max_calls event_type l c
  step (removes_listener l) c = remove_listener S type_name max_calls event_type l c
  step (opens resolved) c = (open_client S type_name max_calls event_type resolved c).1
  step (opens_async e) c = (open_client_async S type_name max_calls event_type e c).1
  step (resolves ec) c = (resolve_completed S type_name max_calls event_type ec c).1
  step (connects ec) c = (connect_completed S type_name max_calls event_type ec c).1
  step closes c = (close_client S type_name max_calls event_type c).1
  step (receives ec bytes n) c =
      (read_completed S type_name max_calls event_type sys ec bytes n c).1

  unfoldable pub run : List (Operation lib) → Client lib → Client lib
  run [] c = c
  run (op ∷ ops) c = run ops (step op c)
