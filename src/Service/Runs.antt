-- ===== src/Service/Runs.antt =====
-- A client of the service of include/cercall/service.h has one call of a function at a time, over any
-- operations.
use cercall.Base.{ℕ, String, List, [], ◌∷◌, lookup, nat_eq, arith, Option-cases, inl, inr}
use cercall.Base.Keeps.{Keeps, Keeps-modify}
use cercall.Error.{Error, ErrorCode, System}
use cercall.Archive.{Archive, Bytes, Arg}
use cercall.Serialization.{Serialization}
use cercall.Transport.{Notification}
use cercall.Messenger.{Messenger, init_transport}
use cercall.Acceptor.{accept_completed}
use cercall.FunctionDict.{FuncDict}
use cercall.Service.State.{Service, new_service}
use cercall.Service.Clients.{
  service_channel, add_client, on_client_accepted, on_accept_error, accept_client, start,
  client_accepted, stop, broadcast, broadcast_event, notify_all, read_completed,
}
use cercall.Service.History.{
  Operation, starts, stops, broadcasts, accepts, receives, answers, closes_client, step, run,
}
use cercall.Service.Keeps.Operations.{
  init_transport-Keeps, KeepsParts, on_accept_error-Keeps, start-Keeps, stop-Keeps, broadcast-Keeps,
  notify_all-Keeps,
}
use cercall.Service.Single.{
  write-HasSingle, dispatch_func-HasSingle, HasSingle, service_parts, call_closure-HasSingle,
  on_disconnected-HasSingle, close_transport-HasSingle,
}

module _ {lib : Archive} (S : Serialization lib) (sys : System) (type_name : String) where
  set_messenger-HasSingle :
      (p : ℕ) (m : Messenger) (s : Service lib)
      → HasSingle lib s
      → HasSingle lib ((service_channel S sys type_name p).set_messenger m s)
  unfolding service_channel
  set_messenger-HasSingle p m s h = elim (Option-cases (lookup p s.clients)) [
    | inl e ↦ rw e h
    | inr (cs, e) ↦ rw e h
  ]

  parts-HasSingle : KeepsParts S sys type_name (HasSingle lib)
  unfolding service_channel
  parts-HasSingle = record {
    writes = write-HasSingle lib;
    closes = close_transport-HasSingle lib;
    disconnects = on_disconnected-HasSingle lib;
    dispatches = dispatch_func-HasSingle S sys;
    sets_acceptor = λ a s h. h;
    sets_messenger = set_messenger-HasSingle;
    starts_read = λ p n s h. h;
  }

  init_transport-HasSingle :
      (p : ℕ) → Keeps (HasSingle lib) (init_transport (service_channel S sys type_name p))
  init_transport-HasSingle = init_transport-Keeps S sys type_name (HasSingle lib) parts-HasSingle

  add_client-HasSingle : (p : ℕ) → Keeps (HasSingle lib) (add_client S sys type_name p)
  unfolding add_client
  add_client-HasSingle p = search (service_parts, Keeps-modify, init_transport-HasSingle) depth 14

  on_client_accepted-HasSingle :
      (p : ℕ) → Keeps (HasSingle lib) (on_client_accepted S sys type_name p)
  unfolding on_client_accepted
  on_client_accepted-HasSingle p = search (service_parts, add_client-HasSingle) depth 14

  on_accept_error-HasSingle :
      (e : Error) → Keeps (HasSingle lib) (on_accept_error S sys type_name e)
  on_accept_error-HasSingle = on_accept_error-Keeps S sys type_name (HasSingle lib) parts-HasSingle

  start-HasSingle : (o b l : ErrorCode) → Keeps (HasSingle lib) (start S sys type_name o b l)
  start-HasSingle = start-Keeps S sys type_name (HasSingle lib) parts-HasSingle

  client_accepted-HasSingle :
      (ec : ErrorCode) (p : ℕ) (results : List ErrorCode)
      → Keeps (HasSingle lib) (client_accepted S sys type_name ec p results)
  unfolding client_accepted accept_completed accept_client
  client_accepted-HasSingle ec p results =
      search (service_parts, Keeps-modify, on_accept_error-HasSingle, on_client_accepted-HasSingle)
        depth 24

  stop-HasSingle : Keeps (HasSingle lib) (stop S sys type_name)
  stop-HasSingle = stop-Keeps S sys type_name (HasSingle lib) parts-HasSingle

  broadcast-HasSingle : (ev : Arg lib) → Keeps (HasSingle lib) (broadcast S sys type_name ev)
  broadcast-HasSingle = broadcast-Keeps S sys type_name (HasSingle lib) parts-HasSingle

  notify_all-HasSingle :
      (p : ℕ) (notes : List Notification)
      → Keeps (HasSingle lib) (notify_all S sys type_name p notes)
  notify_all-HasSingle = notify_all-Keeps S sys type_name (HasSingle lib) parts-HasSingle

  read_completed-HasSingle :
      (p : ℕ) (ec : ErrorCode) (bytes : Bytes) (n : ℕ)
      → Keeps (HasSingle lib) (read_completed S sys type_name p ec bytes n)
  unfolding read_completed
  read_completed-HasSingle p ec bytes n = search (service_parts, notify_all-HasSingle) depth 8

  step-HasSingle :
      (op : Operation lib) (s : Service lib)
      → HasSingle lib s
      → HasSingle lib (step S sys type_name op s)
  unfolding step broadcast_event
  step-HasSingle (starts o b l) s h = (start-HasSingle o b l).at s h
  step-HasSingle stops s h = stop-HasSingle.at s h
  step-HasSingle (broadcasts ev) s h = (broadcast-HasSingle ev).at s h
  step-HasSingle (accepts ec p results) s h = (client_accepted-HasSingle ec p results).at s h
  step-HasSingle (receives p ec bytes n) s h = (read_completed-HasSingle p ec bytes n).at s h
  step-HasSingle (answers p f r res) s h = (call_closure-HasSingle S sys p f r res).at s h
  step-HasSingle (closes_client p) s h = (close_transport-HasSingle lib p).at s h

  run_from-HasSingle :
      (ops : List (Operation lib)) (s : Service lib)
      → HasSingle lib s
      → HasSingle lib (run S sys type_name ops s)
  unfolding run
  run_from-HasSingle [] s h = h
  run_from-HasSingle (op ∷ ops) s h =
      run_from-HasSingle ops (step S sys type_name op s) (step-HasSingle op s h)

  -- From a new service on, whatever the operations are and however they end: a client has at most
  -- one call of a function pending.
  pub run-HasSingle :
      (thread : ℕ) (dict : FuncDict lib) (ops : List (Operation lib))
      → HasSingle lib (run S sys type_name ops (new_service lib thread dict))
  unfolding new_service
  run-HasSingle thread dict ops =
      run_from-HasSingle ops (new_service lib thread dict) (λ f p. omega arith)
