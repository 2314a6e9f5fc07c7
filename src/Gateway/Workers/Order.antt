-- ===== src/Gateway/Workers/Order.antt =====
-- In which order the messages of one connection are worked off
-- (internal/gateway/pipeline.go, PipelineWorkerPool).
use sgate.Prelude.{
  ℕ, zero, suc, ◌<◌, ◌≡◌, ◌≢◌, refl, sym, ap, ◌∙◌, String, Bool, true, false, List, [], ◌∷◌, ◌++◌,
  append_assoc, append-nil, if◌then◌else◌, ltb, length, get_or, set, nat_beq, nat_beq_iff, ◌==◌,
  string_eq, arith, if_cases, Bool-cases, inl, inr, All, All-append, get_or-set_self, get_or-set_ne,
  get_or-set_cases, length-set, subst,
}
use native.Mathlib.Nat.{mod-lt}
use sgate.Prelude.{replicate, length-replicate, ◌*◌}
use sgate.Prelude.Int.{ℤ, pos, negsuc}
use sgate.Gateway.Workers.{
  positive_or, new_pipeline_worker_pool, PipelineWorkerPool, queue_of, take_task, run_worker,
  get_shard, submit,
}

pub data PoolCall (T : Type 0) : Type 0 where
  submits : T → PoolCall T
  works : ℕ → PoolCall T

positive_or-pos : (z : ℤ) (d : ℕ) → 0 < d → 0 < positive_or z d
positive_or-pos (pos zero) d h = h
positive_or-pos (pos (suc n)) d h = omega arith
positive_or-pos (negsuc n) d h = h

not_same : (i j : ℕ) → nat_beq i j ≡ false → i ≢ j
not_same i j e s = ground (arith, e, s)

module _ {T : Type 0} (fnv : String → ℕ) (connection_of : T → String) where
  -- The tasks of one connection.
  unfoldable pub of_connection : String → List T → List T
  of_connection c [] = []
  of_connection c (t ∷ ts) =
      let rest = of_connection c ts in if connection_of t == c then t ∷ rest else rest

  abbrev pub accepted_of : T → Bool → List T
  accepted_of t true = t ∷ []
  accepted_of t false = []

  -- The pool after some calls, with the tasks that it accepted and those that were worked off.
  unfoldable pub pool_calls :
      PipelineWorkerPool T → List (PoolCall T) → PipelineWorkerPool T × List T × List T
  pool_calls p [] = (p, [], [])
  pool_calls p (submits t ∷ calls) =
      let (p', accepted) = submit fnv connection_of p t in
      let (last, ins, outs) = pool_calls p' calls in (last, accepted_of t accepted ++ ins, outs)
  pool_calls p (works shard ∷ calls) =
      let (p', done) = run_worker p shard in
      let (last, ins, outs) = pool_calls p' calls in (last, ins, done ++ outs)

  of_connection-append :
      (c : String) (xs ys : List T)
      → of_connection c (xs ++ ys) ≡ of_connection c xs ++ of_connection c ys
  unfolding of_connection
  of_connection-append c [] ys = refl
  of_connection-append c (x ∷ xs) ys = ground (arith, of_connection-append c xs ys)

  abbrev Owned : PipelineWorkerPool T → ℕ → T → Type 0
  Owned p i t = get_shard fnv connection_of p (connection_of t) ≡ i

  -- Every queue holds the tasks of its own connections only.
  pub record IsSharded (p : PipelineWorkerPool T) : Type 0 where
    pub some_shard : 0 < p.shards
    pub sized : length p.workers ≡ p.shards
    pub own : (i : ℕ) → All (Owned p i) (queue_of p i)

  -- The waiting tasks of a connection.
  abbrev pub waiting : PipelineWorkerPool T → String → List T
  waiting p c = of_connection c (queue_of p (get_shard fnv connection_of p c))

  All-snoc : (P : T → Type 0) (ts : List T) (t : T) → All P ts → P t → All P (ts ++ (t ∷ []))
  All-snoc P ts t h k = All-append P ts (t ∷ []) h (k, tt)

  submit-IsSharded :
      (p : PipelineWorkerPool T) (t : T) → IsSharded p → IsSharded (submit fnv connection_of p t).0
  unfolding submit
  submit-IsSharded p t h =
      let shard = get_shard fnv connection_of p (connection_of t) in
      let longer = queue_of p shard ++ (t ∷ []) in
      if_cases (λ (r : PipelineWorkerPool T × Bool). IsSharded r.0)
        (ltb (length (queue_of p shard)) p.per_shard)
        (λ e. record {
          some_shard = h.some_shard;
          sized = length-set p.workers shard longer ∙ h.sized;
          own = λ i. get_or-set_cases p.workers shard i longer [] (All (Owned p i)) (h.own i) (λ s.
              All-snoc (Owned p i) (queue_of p shard) t
                (subst (λ j. All (Owned p j) (queue_of p shard)) s (h.own shard)) s);
        })
        (λ e. record { some_shard = h.some_shard; sized = h.sized; own = h.own })

  -- A task is no other connection's.
  of_connection-other :
      (t : T) (c : String) → (connection_of t == c) ≡ false → of_connection c (t ∷ []) ≡ []
  unfolding of_connection
  of_connection-other t c e = rw e refl

  inside :
      (p : PipelineWorkerPool T)
      → IsSharded p
      → (c : String) → get_shard fnv connection_of p c < length p.workers
  inside p h c = omega (arith, mod-lt (fnv c) {m = p.shards} h.some_shard, h.sized)

  -- Connections of different shards differ.
  other_shard :
      (p : PipelineWorkerPool T) (t : T) (c : String)
      → nat_beq (get_shard fnv connection_of p (connection_of t)) (get_shard fnv connection_of p c)
        ≡ false
      → (connection_of t == c) ≡ false
  other_shard p t c e = elim (Bool-cases (connection_of t == c)) [
    | inl s ↦
        let same =
          ap (get_shard fnv connection_of p) ((string_eq.beq_iff (connection_of t) c).0 s) in
        absurd (ground (arith, e, same))
    | inr s ↦ s
  ]

  submitted-waiting :
      (p : PipelineWorkerPool T) (t : T) (c : String)
      → IsSharded p
      → let shard = get_shard fnv connection_of p (connection_of t) in
        of_connection c (
          get_or
            (set p.workers shard (queue_of p shard ++ (t ∷ [])))
            (get_shard fnv connection_of p c)
            [])
        ≡ waiting p c ++ of_connection c (t ∷ [])
  submitted-waiting p t c h =
      let i = get_shard fnv connection_of p (connection_of t) in
      let j = get_shard fnv connection_of p c in
      let longer = queue_of p i ++ (t ∷ []) in
      elim (Bool-cases (nat_beq i j)) [
        | inl e ↦
            let same = (nat_beq_iff i j).0 e in
            ap (of_connection c) (
              subst (λ k. get_or (set p.workers i longer) k [] ≡ longer) same
                (get_or-set_self p.workers i longer [] (inside p h (connection_of t))))
            ∙ (of_connection-append c (queue_of p i) (t ∷ [])
                ∙ ap (λ k. of_connection c (queue_of p k) ++ of_connection c (t ∷ [])) same)
        | inr e ↦
            let other = of_connection-other t c (other_shard p t c e) in
            ap (of_connection c) (get_or-set_ne p.workers i j longer [] (not_same i j e))
            ∙ (sym (append-nil (waiting p c)) ∙ ap (λ ts. waiting p c ++ ts) (sym other))
      ]

  submit-waiting :
      (p : PipelineWorkerPool T) (t : T) (c : String)
      → IsSharded p
      → waiting (submit fnv connection_of p t).0 c
        ≡ waiting p c ++ of_connection c (accepted_of t (submit fnv connection_of p t).1)
  unfolding submit of_connection
  submit-waiting p t c h =
      let shard = get_shard fnv connection_of p (connection_of t) in
      if_cases
        (λ (r : PipelineWorkerPool T × Bool).
          waiting r.0 c ≡ waiting p c ++ of_connection c (accepted_of t r.1))
        (ltb (length (queue_of p shard)) p.per_shard) (λ e. submitted-waiting p t c h)
        (λ e. sym (append-nil (waiting p c)))

  -- What a worker takes is the first that waits in its queue.
  take-waiting :
      (p : PipelineWorkerPool T) (i : ℕ) (q : List T) (c : String)
      → IsSharded p
      → queue_of p i ≡ q
      → waiting p c ≡ of_connection c (take_task q p i).1 ++ waiting (take_task q p i).0 c
  unfolding take_task of_connection
  take-waiting p i [] c h e = refl
  take-waiting p i (t ∷ ts) c h e =
      let j = get_shard fnv connection_of p c in
      elim (Bool-cases (nat_beq i j)) [
        | inl b ↦
            let same = (nat_beq_iff i j).0 b in
            let here = subst (λ k. k < length p.workers) (sym same) (inside p h c) in
            let left =
              subst (λ k. get_or (set p.workers i ts) k [] ≡ ts) same
                (get_or-set_self p.workers i ts [] here) in
            ap (λ k. of_connection c (queue_of p k)) (sym same)
            ∙ (ap (of_connection c) e
                ∙ (of_connection-append c (t ∷ []) ts
                    ∙ ap (λ q. of_connection c (t ∷ []) ++ of_connection c q) (sym left)))
        | inr b ↦
            let owned = (subst (All (Owned p i)) e (h.own i)).0 in
            let other =
              of_connection-other t c (other_shard p t c (ap (λ k. nat_beq k j) owned ∙ b)) in
            ap (of_connection c) (sym (get_or-set_ne p.workers i j ts [] (not_same i j b)))
            ∙ ap (λ x. x ++ of_connection c (get_or (set p.workers i ts) j [])) (sym other)
      ]

  take-IsSharded :
      (p : PipelineWorkerPool T) (i : ℕ) (q : List T)
      → IsSharded p
      → queue_of p i ≡ q
      → IsSharded (take_task q p i).0
  unfolding take_task
  take-IsSharded p i [] h e = h
  take-IsSharded p i (t ∷ ts) h e = record {
    some_shard = h.some_shard;
    sized = length-set p.workers i ts ∙ h.sized;
    own = λ k.
        get_or-set_cases p.workers i k ts [] (All (Owned p k)) (h.own k)
          (λ s. subst (λ j. All (Owned p j) ts) s (subst (All (Owned p i)) e (h.own i)).1);
  }

  -- Of every connection, the tasks that waited and those that were accepted since are those that were
  -- worked off and those that wait now, in the same order.
  pub pool_calls-order :
      (p : PipelineWorkerPool T) (calls : List (PoolCall T)) (c : String)
      → IsSharded p
      → let (last, ins, outs) = pool_calls p calls in
        waiting p c ++ of_connection c ins ≡ of_connection c outs ++ waiting last c
  unfolding pool_calls of_connection
  pool_calls-order p [] c h = append-nil (waiting p c)
  pool_calls-order p (submits t ∷ calls) c h =
      let (p', accepted) = submit fnv connection_of p t in
      let ins = (pool_calls p' calls).1 in
      let acc = accepted_of t accepted in
      ap (λ x. waiting p c ++ x) (of_connection-append c acc ins)
      ∙ (sym (append_assoc (waiting p c) (of_connection c acc) (of_connection c ins))
          ∙ (ap (λ x. x ++ of_connection c ins) (sym (submit-waiting p t c h))
              ∙ pool_calls-order p' calls c (submit-IsSharded p t h)))
  pool_calls-order p (works shard ∷ calls) c h =
      let (p', done) = run_worker p shard in
      let (last, ins, outs) = pool_calls p' calls in
      let of_done = of_connection c done in
      ap (λ x. x ++ of_connection c ins) (take-waiting p shard (queue_of p shard) c h refl)
      ∙ (append_assoc of_done (waiting p' c) (of_connection c ins)
          ∙ (ap (λ x. of_done ++ x)
                (pool_calls-order p' calls c (take-IsSharded p shard (queue_of p shard) h refl))
              ∙ (sym (append_assoc of_done (of_connection c outs) (waiting last c))
                  ∙ ap (λ x. x ++ waiting last c) (sym (of_connection-append c done outs)))))

  get_or-empty : (n i : ℕ) → get_or {A = List T} (replicate n []) i [] ≡ []
  get_or-empty zero i = refl
  get_or-empty (suc n) zero = refl
  get_or-empty (suc n) (suc i) = get_or-empty n i

  -- What the settings make of the number of shards.
  pub new_pool-IsSharded :
      (procs : ℕ) (worker_shards worker_queue_size : ℤ)
      → 0 < procs
      → IsSharded (new_pipeline_worker_pool procs worker_shards worker_queue_size)
  unfolding new_pipeline_worker_pool
  new_pool-IsSharded procs worker_shards worker_queue_size h =
      let shards = positive_or worker_shards (procs * 4) in
      record {
        some_shard = positive_or-pos worker_shards (procs * 4) (omega (arith, h));
        sized = length-replicate shards [];
        own = λ i.
            subst (All (Owned (new_pipeline_worker_pool procs worker_shards worker_queue_size) i))
              (sym (get_or-empty shards i)) tt;
      }
