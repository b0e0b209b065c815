-- ===== src/Service/Single.antt =====
-- A client of the service of include/cercall/service.h has one call of a function at a time.
use cercall.Base.{
  ℕ, ◌≡◌, false, String, List, [], ◌∷◌, ◌++◌, lookup, nat_eq, Option-cases, inl, inr,
}
use cercall.Base.Exec.{Exec}
use cercall.Base.Keeps.{
  Keeps, Keeps-bind, Keeps-modify, Keeps-if, Keeps-test, Keeps-pure, Keeps-throw, Keeps-gets,
  keeps_rules,
}
use cercall.Error.{System}
use cercall.Result.{Result}
use cercall.Archive.{Archive, Bytes, ResultTy, ResultVal}
use cercall.Serialization.{Serialization}
use cercall.Transport.{Transport, Notification}
use cercall.Service.State.{
  Service, check_thread_id, on_transport, on_disconnected, notify_closed, write, close_transport,
}
use cercall.Service.Dispatch.{call_closure, find_pending_call, dispatch_func}
use cercall.Service.Dispatch.{erase_pending_call}
use cercall.Service.Keeps.Calls.{call_closure-Keeps, dispatch_func-Keeps}
use cercall.Service.Keeps.Operations.{check_thread_id-Keeps}
use cercall.Service.Pending.{IsSingle, add_pending-IsSingle, erase_pending-IsSingle}

abbrev pub HasSingle : (lib : Archive) → Service lib → Type 0
HasSingle lib s = IsSingle s.pending_calls

module _ (lib : Archive) where
  pub check_thread_id-HasSingle : (m : String) → Keeps (HasSingle lib) (check_thread_id lib m)
  check_thread_id-HasSingle = check_thread_id-Keeps (HasSingle lib)

  pub on_transport-HasSingle :
      {A : Type 0} (p : ℕ) (m : Exec Transport A) → Keeps (HasSingle lib) (on_transport lib p m)
  unfolding on_transport
  on_transport-HasSingle p m = record {
    at =
        λ s h. elim (Option-cases (lookup p s.transports)) [ inl e ↦ rw e h | inr (t, e) ↦ rw e h ];
  }

  pub on_disconnected-HasSingle : (p : ℕ) → Keeps (HasSingle lib) (on_disconnected lib p)
  unfolding on_disconnected
  on_disconnected-HasSingle p =
      search (keeps_rules, check_thread_id-HasSingle, on_transport-HasSingle, Keeps-modify) depth 8

  pub notify_closed-HasSingle :
      (p : ℕ) (notes : List Notification) → Keeps (HasSingle lib) (notify_closed lib p notes)
  unfolding notify_closed
  notify_closed-HasSingle p [] = Keeps-pure tt
  notify_closed-HasSingle p (_ ∷ notes) =
      Keeps-bind _ _ (on_disconnected-HasSingle p) (λ _. notify_closed-HasSingle p notes)

  pub write-HasSingle : (p : ℕ) (msg : Bytes) → Keeps (HasSingle lib) (write lib p msg)
  unfolding write
  write-HasSingle p msg = search (keeps_rules, on_transport-HasSingle, notify_closed-HasSingle)

  pub close_transport-HasSingle : (p : ℕ) → Keeps (HasSingle lib) (close_transport lib p)
  unfolding close_transport
  close_transport-HasSingle p =
      search (keeps_rules, on_transport-HasSingle, notify_closed-HasSingle)

pub ruleset service_parts = (
  keeps_rules, check_thread_id-HasSingle, on_transport-HasSingle, notify_closed-HasSingle,
  on_disconnected-HasSingle, write-HasSingle, close_transport-HasSingle,
)

module _ {lib : Archive} (S : Serialization lib) (sys : System) where
  erase-HasSingle :
      (f : String) (p : ℕ) (s : Service lib)
      → HasSingle lib s
      → HasSingle lib (record s { pending_calls = erase_pending_call f p s.pending_calls })
  erase-HasSingle f p s h = erase_pending-IsSingle f p s.pending_calls h

  add-HasSingle :
      (f : String) (p : ℕ) (s : Service lib)
      → find_pending_call f p s.pending_calls ≡ false
      → HasSingle lib s
      → HasSingle lib (record s { pending_calls = s.pending_calls ++ (f, p) ∷ [] })
  add-HasSingle f p s e h = add_pending-IsSingle f p s.pending_calls e h

  pub call_closure-HasSingle :
      (p : ℕ) (f : String) (r : ResultTy lib) (res : Result (ResultVal lib r))
      → Keeps (HasSingle lib) (call_closure S sys p f r res)
  call_closure-HasSingle =
      call_closure-Keeps S sys (HasSingle lib) (write-HasSingle lib) erase-HasSingle add-HasSingle

  pub dispatch_func-HasSingle :
      (p : ℕ) (f : String) (args : Bytes) → Keeps (HasSingle lib) (dispatch_func S sys p f args)
  dispatch_func-HasSingle =
      dispatch_func-Keeps S sys (HasSingle lib) (write-HasSingle lib) erase-HasSingle add-HasSingle
