-- ===== src/CallQueue.antt =====
-- include/cercall/details/callqueue.h: for each function of the interface the calls that wait until
-- the one in progress is answered. A queue belongs to the map alone, so its pointer is left out.
pub mod Fifo
pub mod Refine
use cercall.Base.{
  ℕ, Bool, true, false, Option, none, some, String, List, [], ◌∷◌, ◌++◌, nat_beq, ltb, length, Map,
  lookup, insert, string_eq, if◌then◌else◌,
}
use cercall.Base.Exec.{
  Exec, ok, aborts, undefined, Outcome, lift, gets, modify, o_assert, ◌>>=◌, ◌>>◌,
}

abbrev pub CallQueue : Type 0 → Type 0
CallQueue A = Map String (List A)

module _ {A : Type 0} where
  abbrev pub is_found : Option (List A) → Bool
  is_found none = false
  is_found (some q) = true

  -- `myQueueMap[funcName]`, once the name has been found.
  abbrev pub found_queue : Option (List A) → List A
  found_queue none = []
  found_queue (some q) = q

  -- The two variants of `can_enqueue`.
  unfoldable pub can_enqueue : ℕ → String → CallQueue A → Bool
  can_enqueue callQueueLimit funcName q =
      if nat_beq callQueueLimit 0 then false else elim (lookup funcName q) [
        | none ↦ true
        | some actions ↦ ltb (length actions) callQueueLimit
      ]

  unfoldable pub enqueue_call : String → A → CallQueue A → CallQueue A
  enqueue_call funcName action q =
      insert funcName (found_queue (lookup funcName q) ++ action ∷ []) q

  unfoldable pub is_enqueued : ℕ → String → CallQueue A → Bool
  is_enqueued callQueueLimit funcName q =
      if nat_beq callQueueLimit 0
      then false
      else elim (lookup funcName q) [ none ↦ false | some actions ↦ ltb 0 (length actions) ]

  -- `front()` of an empty list is undefined.
  unfoldable pub front : List A → Outcome A
  front [] = undefined
  front (action ∷ actions) = ok action

  unfoldable pub pop_front : List A → List A
  pop_front [] = []
  pop_front (action ∷ actions) = actions

-- The action runs before it is taken off its queue; an exception leaves it there.
module _ {A W : Type 0} (queue : W → CallQueue A) (set_queue : CallQueue A → W → W) where
  unfoldable pub dequeue_call : (A → Exec W (Unit {0})) → String → Exec W (Unit {0})
  unfolding front pop_front
  dequeue_call run funcName = do
    found ← gets (λ w. is_found (lookup funcName (queue w)))
    o_assert found
    actions ← gets (λ w. found_queue (lookup funcName (queue w)))
    action ← lift (front actions)
    run action
    modify (λ w.
        set_queue (insert funcName (pop_front (found_queue (lookup funcName (queue w)))) (queue w))
          w)
