-- ===== src/CallQueue/Refine.antt =====
-- The call queue of include/cercall/details/callqueue.h, as include/cercall/client.h uses it, does
-- what a bounded first-in first-out queue of its own for each function does.
use cercall.Base.{
  ℕ, ◌≤◌, ◌<◌, ◌≡◌, refl, ap, ◌∙◌, String, List, [], ◌∷◌, ◌++◌, ltb, ltb→lt, length-append, length,
  insert, lookup-insert, string_eq, ◌==◌, Bool-cases, inl, inr, if◌then◌else◌, arith,
}
use cercall.Base.Exec.{ok, Exec, pure, gets, modify, ◌>>=◌, ◌>>◌}
use cercall.CallQueue.{CallQueue, can_enqueue, enqueue_call, is_enqueued, dequeue_call}
use cercall.CallQueue.Fifo.{
  waiting, can_enqueue-waiting, is_enqueued-none, is_enqueued-some, waiting-enqueue_call,
  dequeue_call-front,
}

-- What a client asks of the queue: to take a call of a function, if there is room for it, or to run
-- the next call of a function, if one waits.
pub data Request (A : Type 0) : Type 0 where
  offer : String → A → Request A
  run_next : String → Request A

-- The queue, and the calls that have been run.
pub record Queued (A : Type 0) : Type 0 where
  pub queue : CallQueue A
  pub ran : List A

-- The specification: a list for each function.
abbrev pub Lists : Type 0 → Type 0
Lists A = String → List A

module _ {A : Type 0} (limit : ℕ) where
  abbrev note : A → Exec (Queued A) (Unit {0})
  note a = modify (λ w. record w { ran = w.ran ++ a ∷ [] })

  abbrev set_queue : CallQueue A → Queued A → Queued A
  set_queue q w = record w { queue = q }

  -- `queue_call` of the client without its exception, and `dequeue_next`, for an action that is noted.
  serve : Request A → Exec (Queued A) (Unit {0})
  serve (offer f a) = do
    allowed ← gets (λ w. can_enqueue limit f w.queue)
    if allowed then modify (λ w. record w { queue = enqueue_call f a w.queue }) else pure tt
  serve (run_next f) = do
    queued ← gets (λ w. is_enqueued limit f w.queue)
    if queued then dequeue_call (λ w. w.queue) set_queue note f else pure tt

  pub serve_all : List (Request A) → Exec (Queued A) (Unit {0})
  serve_all [] = pure tt
  serve_all (r ∷ rs) = serve r >> serve_all rs

  abbrev set : String → List A → Lists A → Lists A
  set f as' lists g = if f == g then as' else lists g

  set-bounded :
      (f g : String) (as' : List A) (lists : Lists A)
      → length as' ≤ limit
      → length (lists g) ≤ limit
      → length (set f as' lists g) ≤ limit
  set-bounded f g as' lists h k = ground arith

  waiting-set :
      (f g : String) (as' : List A) (q : CallQueue A) (lists : Lists A)
      → waiting g q ≡ lists g
      → waiting g (insert f as' q) ≡ set f as' lists g
  waiting-set f g as' q lists e = rw (lookup-insert f g) (ground arith)

  next_of : String → List A → Lists A × List A → Lists A × List A
  next_of f [] (lists, ran) = (lists, ran)
  next_of f (a ∷ as') (lists, ran) = (set f as' lists, ran ++ a ∷ [])

  specified : Request A → Lists A × List A → Lists A × List A
  unfolding next_of
  specified (offer f a) (lists, ran) =
      if ltb (length (lists f)) limit then (set f (lists f ++ a ∷ []) lists, ran) else (lists, ran)
  specified (run_next f) (lists, ran) = next_of f (lists f) (lists, ran)

  pub specified_all : List (Request A) → Lists A × List A → Lists A × List A
  specified_all [] s = s
  specified_all (r ∷ rs) s = specified_all rs (specified r s)

  -- The queue holds the lists of the specification, none longer than the limit, and the same calls
  -- have been run.
  pub record Refines (w : Queued A) (s : Lists A × List A) : Type 0 where
    pub lists : (f : String) → waiting f w.queue ≡ s.0 f
    pub ran : w.ran ≡ s.1
    pub bounded : (f : String) → length (s.0 f) ≤ limit

  offer-Refines :
      (f : String) (a : A) (w : Queued A) (s : Lists A × List A)
      → Refines w s
      → (w' : Queued A) × (serve (offer f a) w ≡ (ok tt, w')) × Refines w' (specified (offer f a) s)
  unfolding serve specified
  offer-Refines f a w (lists, ran) r = elim (Bool-cases (ltb (length (lists f)) limit)) [
    | inl room ↦ (
      record w { queue = enqueue_call f a w.queue },
      rw (can_enqueue-waiting limit f w.queue, r.lists f) (rw (room, if◌then◌else◌) refl),
      rw room (record {
        lists = λ g. rw (waiting-enqueue_call, r.lists f, r.lists g) refl;
        ran = r.ran;
        bounded = λ g.
            set-bounded f g (lists f ++ a ∷ []) lists
              (omega (arith, length-append (lists f) (a ∷ []), ltb→lt _ _ room)) (r.bounded g);
      }),
    )
    | inr full ↦ (
      w,
      rw (can_enqueue-waiting limit f w.queue, r.lists f) (rw (full, if◌then◌else◌) refl),
      rw full r,
    )
  ]

  run_next_of :
      (f : String) (w : Queued A) (lists : Lists A) (ran as' : List A)
      → lists f ≡ as'
      → Refines w (lists, ran)
      → (w' : Queued A) × (serve (run_next f) w ≡ (ok tt, w'))
        × Refines w' (next_of f as' (lists, ran))
  unfolding serve next_of
  run_next_of f w lists ran [] e r =
      (w, rw (is_enqueued-none limit f w.queue (r.lists f ∙ e)) refl, r)
  run_next_of f w lists ran (a ∷ as') e r = (
    record { queue = insert f as' w.queue; ran = w.ran ++ a ∷ [] },
    rw (is_enqueued-some limit f w.queue a as' positive (r.lists f ∙ e)) (
        dequeue_call-front (λ (w' : Queued A). w'.queue) set_queue note f a as' w _ (r.lists f ∙ e)
          refl refl),
    record {
      lists = λ g. waiting-set f g as' w.queue lists (r.lists g);
      ran = ap (λ xs. xs ++ a ∷ []) r.ran;
      bounded =
          λ g. set-bounded f g as' lists (omega (arith, ap length e, r.bounded f)) (r.bounded g);
    },
  )
    where
      positive : 0 < limit
      positive = omega (arith, ap length e, r.bounded f)

  run_next-Refines :
      (f : String) (w : Queued A) (s : Lists A × List A)
      → Refines w s
      → (w' : Queued A) × (serve (run_next f) w ≡ (ok tt, w'))
        × Refines w' (specified (run_next f) s)
  unfolding serve specified
  run_next-Refines f w (lists, ran) r = run_next_of f w lists ran (lists f) refl r

  serve-Refines :
      (q : Request A) (w : Queued A) (s : Lists A × List A)
      → Refines w s
      → (w' : Queued A) × (serve q w ≡ (ok tt, w')) × Refines w' (specified q s)
  serve-Refines (offer f a) w s r = offer-Refines f a w s r
  serve-Refines (run_next f) w s r = run_next-Refines f w s r

  -- Any requests, made of a call queue in turn, end without an exception, and then the calls that
  -- have been run and the calls that wait for each function are those of a family of lists, one for
  -- each function, to which a call is added at the end while the list is shorter than the limit, and
  -- from which the next call to run is taken at the front, if there is one. The call queue holds
  -- such lists, of at most the limit's length, to begin with.
  pub serve_all-Refines :
      (requests : List (Request A)) (w : Queued A) (s : Lists A × List A)
      → Refines w s
      → (w' : Queued A) × (serve_all requests w ≡ (ok tt, w'))
        × Refines w' (specified_all requests s)
  unfolding serve_all specified_all
  serve_all-Refines [] w s r = (w, refl, r)
  serve_all-Refines (q ∷ requests) w s r =
      let (v, e, r') = serve-Refines q w s r in
      let (w', e', r'') = serve_all-Refines requests v (specified q s) r' in (w', rw e e', r'')
