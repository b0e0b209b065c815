-- ===== src/CallQueue/Fifo.antt =====
-- The call queue as a family of bounded first-in first-out queues, one for each function name.
use cercall.Base.{
  ℕ, ◌≤◌, ◌<◌, ◌≡◌, refl, ap, true, false, String, List, [], ◌∷◌, ◌++◌, nat_beq, ltb, ltb→lt, sym,
  ◌∙◌, Bool-cases, length, length-append, lookup, insert, lookup-insert, string_eq, ◌==◌, ◌&&◌, not,
  Option-cases, inl, inr, if◌then◌else◌, arith,
}
use cercall.Base.Exec.{ok, Exec}
use cercall.Base.Keeps.{Keeps, Keeps-modify, keeps_rules}
use cercall.CallQueue.{
  CallQueue, can_enqueue, enqueue_call, is_enqueued, dequeue_call, found_queue, pop_front,
}

module _ {A : Type 0} where
  -- The calls that wait for a function, the oldest first.
  abbrev pub waiting : String → CallQueue A → List A
  waiting f q = found_queue (lookup f q)

  -- A call may be queued exactly when fewer calls than the limit wait for the same function.
  pub can_enqueue-waiting :
      (limit : ℕ) (f : String) (q : CallQueue A)
      → can_enqueue limit f q ≡ ltb (length (waiting f q)) limit
  unfolding can_enqueue
  can_enqueue-waiting limit f q = ground arith

  pub is_enqueued-waiting :
      (limit : ℕ) (f : String) (q : CallQueue A)
      → is_enqueued limit f q ≡ (not (nat_beq limit 0) && ltb 0 (length (waiting f q)))
  unfolding is_enqueued
  is_enqueued-waiting limit f q = ground arith

  -- A call that is queued goes behind those of its function, and no other function's queue changes.
  pub waiting-enqueue_call :
      (f g : String) (a : A) (q : CallQueue A)
      → waiting g (enqueue_call f a q) ≡ (if f == g then waiting f q ++ a ∷ [] else waiting g q)
  unfolding enqueue_call
  waiting-enqueue_call f g a q = rw (lookup-insert f g) (ground arith)

  -- No function has more calls waiting than the limit.
  abbrev pub IsBounded : ℕ → CallQueue A → Type 0
  IsBounded limit q = (f : String) → length (waiting f q) ≤ limit

  -- Queueing a call where `can_enqueue` allows it keeps every function within the limit.
  pub enqueue_call-IsBounded :
      (limit : ℕ) (f : String) (a : A) (q : CallQueue A)
      → IsBounded limit q
      → can_enqueue limit f q ≡ true
      → IsBounded limit (enqueue_call f a q)
  enqueue_call-IsBounded limit f a q b c g = rw waiting-enqueue_call (elim (Bool-cases (f == g)) [
    | inl e ↦ rw e (
        omega (
          arith,
          ltb→lt _ _ (sym (can_enqueue-waiting limit f q) ∙ c),
          length-append (waiting f q) (a ∷ []),
        ))
    | inr e ↦ rw e (b g)
  ])

module _ {A W : Type 0} (queue : W → CallQueue A) (set_queue : CallQueue A → W → W) where
  -- Of the calls that wait for a function, at least one, the oldest is the one that runs, and if
  -- it returns and leaves the queue as it was, it is taken off and the others go on waiting.
  pub dequeue_call-front :
      (run : A → Exec W (Unit {0})) (f : String) (a : A) (as' : List A) (w w' : W)
      → waiting f (queue w) ≡ a ∷ as'
      → run a w ≡ (ok tt, w')
      → queue w' ≡ queue w
      → dequeue_call queue set_queue run f w ≡ (ok tt, set_queue (insert f as' (queue w)) w')
  unfolding dequeue_call
  dequeue_call-front run f a as' w w' e r k = elim (Option-cases (lookup f (queue w))) [
    | inl n ↦ cc (ap found_queue n)
    | inr (q, s) ↦ rw s (rw e (rw r (rw (k, e) refl)))
  ]

  -- What the action keeps, and taking a call off its queue, the whole keeps.
  pub dequeue_call-Keeps :
      {P : W → Type 0} (run : A → Exec W (Unit {0})) (f : String)
      → ((a : A) → Keeps P (run a))
      → ((w : W) → P w → P (set_queue (insert f (pop_front (waiting f (queue w))) (queue w)) w))
      → Keeps P (dequeue_call queue set_queue run f)
  unfolding dequeue_call
  dequeue_call-Keeps run f k pops = search (keeps_rules, Keeps-modify, k, pops) depth 9

module _ {A : Type 0} where
  pub pop_front-IsBounded :
      (limit : ℕ) (f : String) (q : CallQueue A)
      → IsBounded limit q
      → IsBounded limit (insert f (pop_front (waiting f q)) q)
  unfolding pop_front
  pop_front-IsBounded limit f q b g = rw (lookup-insert f g) (elim (Bool-cases (f == g)) [
    | inl e ↦ rw e (shorter (waiting f q) (b f))
    | inr e ↦ rw e (b g)
  ])
    where
      shorter : (xs : List A) → length xs ≤ limit → length (pop_front xs) ≤ limit
      shorter [] h = h
      shorter (x ∷ xs) h = omega arith

  pub is_enqueued-none :
      (limit : ℕ) (f : String) (q : CallQueue A) → waiting f q ≡ [] → is_enqueued limit f q ≡ false
  is_enqueued-none limit f q e = rw (is_enqueued-waiting limit f q, e) (ground arith)

  pub is_enqueued-some :
      (limit : ℕ) (f : String) (q : CallQueue A) (a : A) (as' : List A)
      → 0 < limit
      → waiting f q ≡ a ∷ as'
      → is_enqueued limit f q ≡ true
  is_enqueued-some limit f q a as' h e = rw (is_enqueued-waiting limit f q, e) (ground arith)
