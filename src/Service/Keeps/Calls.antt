-- ===== src/Service/Keeps/Calls.antt =====
-- What the calls of a service of include/cercall/service.h keep: whatever its writes and its list of
-- pending calls keep.
use cercall.Base.{
  ℕ, ◌≡◌, Bool, true, false, not, ◌&&◌, Option, none, some, String, List, [], ◌∷◌, ◌++◌, nat_eq,
  Bool-cases, inl, inr, if◌then◌else◌,
}
use cercall.Base.Exec.{
  Exec, Outcome, ok, throws, aborts, undefined, out_of_fuel, Exception, gets, ◌>>=◌,
}
use cercall.Base.Keeps.{Keeps, Keeps-bind, Keeps-modify, Keeps-pure, Keeps-throw, keeps_rules}
use cercall.Error.{System}
use cercall.Result.{Result}
use cercall.Archive.{Archive, Bytes, ResultTy, ResultVal}
use cercall.Serialization.{Serialization}
use cercall.Service.State.{Service, write}
use cercall.Service.Dispatch.{
  rethrow, send_result, result_message, call_closure, call_closures, thrown_by, call_service,
  refuse_call, find_pending_call, accept_call, dispatch_func, call_failed,
}
use cercall.Service.Dispatch.{erase_pending_call}

module _ {S A : Type 0} {P : S → Type 0} where
  pub Keeps-rethrow :
      (f : Exception → Exception) (m : Exec S A) → Keeps P m → Keeps P (λ s. rethrow f (m s))
  Keeps-rethrow f m k = record { at = λ s h. same (m s) (k.at s h) }
    where
      same : (r : Outcome A × S) → P r.1 → P (rethrow f r).1
      same (ok a, s) h = h
      same (throws x, s) h = h
      same (aborts, s) h = h
      same (undefined, s) h = h
      same (out_of_fuel, s) h = h

module _ {lib : Archive} (S : Serialization lib) (sys : System) (P : Service lib → Type 0)
    (writes : (p : ℕ) (msg : Bytes) → Keeps P (write lib p msg))
    (erases : (f : String) (p : ℕ) (s : Service lib)
      → P s
      → P (record s { pending_calls = erase_pending_call f p s.pending_calls }))
    (adds : (f : String) (p : ℕ) (s : Service lib)
      → find_pending_call f p s.pending_calls ≡ false
      → P s
      → P (record s { pending_calls = s.pending_calls ++ (f, p) ∷ [] })) where
  write-Keeps : (p : ℕ) (msg : Bytes) → Keeps P (write lib p msg)
  write-Keeps p msg = writes p msg

  erase-Keeps :
      (f : String) (p : ℕ) (s : Service lib)
      → P s
      → P (record s { pending_calls = erase_pending_call f p s.pending_calls })
  erase-Keeps f p s h = erases f p s h

  ruleset call_rules = (keeps_rules, Keeps-modify, write-Keeps, erase-Keeps)

  send_result-Keeps : (p : ℕ) (f : String) (msg : Bytes) → Keeps P (send_result S sys p f msg)
  unfolding send_result
  send_result-Keeps p f msg = search call_rules depth 12

  result_message-Keeps :
      (p : ℕ) (f : String) (r : ResultTy lib) (res : Result (ResultVal lib r))
      → Keeps P (result_message S sys p f r res)
  unfolding result_message
  result_message-Keeps p f r res = search call_rules depth 8

  pub call_closure-Keeps :
      (p : ℕ) (f : String) (r : ResultTy lib) (res : Result (ResultVal lib r))
      → Keeps P (call_closure S sys p f r res)
  unfolding call_closure
  call_closure-Keeps p f r res = search (keeps_rules, result_message-Keeps, send_result-Keeps)

  call_closures-Keeps :
      (p : ℕ) (f : String) (r : ResultTy lib) (rs : List (Result (ResultVal lib r)))
      → Keeps P (call_closures S sys p f r rs)
  unfolding call_closures
  call_closures-Keeps p f r [] = Keeps-pure tt
  call_closures-Keeps p f r (res ∷ rs) =
      Keeps-bind _ _ (call_closure-Keeps p f r res) (λ _. call_closures-Keeps p f r rs)

  thrown_by-Keeps : (o : Option String) → Keeps P (thrown_by S sys o)
  unfolding thrown_by
  thrown_by-Keeps none = Keeps-pure tt
  thrown_by-Keeps (some m) = Keeps-throw _

  pub call_service-Keeps :
      (p : ℕ) (f : String) (args : Bytes) → Keeps P (call_service S sys p f args)
  unfolding call_service
  call_service-Keeps p f args = search (keeps_rules, call_closures-Keeps, thrown_by-Keeps) depth 8

  pub refuse_call-Keeps : (p : ℕ) (f : String) → Keeps P (refuse_call S sys p f)
  unfolding refuse_call
  refuse_call-Keeps p f = search call_rules depth 8

  accept_call-Keeps :
      (one_way : Bool) (p : ℕ) (f : String) (args : Bytes) (s : Service lib)
      → (not one_way && find_pending_call f p s.pending_calls) ≡ false
      → P s
      → P (accept_call S sys one_way p f args s).1
  unfolding accept_call
  accept_call-Keeps true p f args s e h =
      (Keeps-rethrow (call_failed S sys f) (call_service S sys p f args)
          (call_service-Keeps p f args)).at
        s h
  accept_call-Keeps false p f args s e h =
      (Keeps-rethrow (call_failed S sys f) (call_service S sys p f args)
          (call_service-Keeps p f args)).at
        (record s { pending_calls = s.pending_calls ++ (f, p) ∷ [] }) (adds f p s e h)

  decide-Keeps :
      (one_way : Bool) (p : ℕ) (f : String) (args : Bytes)
      → Keeps P (
          gets (λ (s : Service lib). not one_way && find_pending_call f p s.pending_calls) >>= λ b.
          if b then refuse_call S sys p f else accept_call S sys one_way p f args)
  decide-Keeps one_way p f args = record {
    at = λ s h. elim (Bool-cases (not one_way && find_pending_call f p s.pending_calls)) [
      | inl e ↦ rw e ((refuse_call-Keeps p f).at s h)
      | inr e ↦ rw e (accept_call-Keeps one_way p f args s e h)
    ];
  }

  pub dispatch_func-Keeps :
      (p : ℕ) (f : String) (args : Bytes) → Keeps P (dispatch_func S sys p f args)
  unfolding dispatch_func
  dispatch_func-Keeps p f args = search (keeps_rules, decide-Keeps) depth 8
