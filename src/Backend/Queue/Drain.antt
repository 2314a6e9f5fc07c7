-- ===== src/Backend/Queue/Drain.antt =====
-- The flush to a client that keeps answering (internal/backend/client.go).
use sgate.Prelude.{
  ℕ, zero, suc, ◌+◌, ◌-◌, ◌*◌, ◌<◌, ◌≤◌, ◌≡◌, ◌≢◌, refl, true, false, ap, subst, sym, ◌∙◌, List, [],
  ◌∷◌, Option, some, length, leb, arith, if_cases,
}
use mathlib.Core.Option
use sgate.Backend.Queue.{
  StreamMessageQueue, dequeue_from, Attempt, client_closing, sent_directly, not_sent, drained,
  Flushed, with_sent, end_flush, max_failures, flush_fuel, flush_attempt, flush_next, flush_loop,
  flush,
}
use sgate.Backend.Queue.Bounds.{IsBounded}
use sgate.Backend.Queue.Flush.{requeue_front-queue}

not_both : (a : Attempt) → a ≡ not_sent → a ≢ sent_directly
not_both a n e = ground (arith, n, e)

-- An answer that is not the first lies behind the first.
later :
    (attempt : ℕ → Attempt) (i failures k : ℕ)
    → attempt (i + k) ≡ sent_directly
    → failures + k < max_failures
    → attempt i ≡ not_sent
    → (k' : ℕ) × (attempt (suc i + k') ≡ sent_directly) × (suc failures + k' < max_failures)
later attempt i failures zero a f n =
    absurd (not_both (attempt i) n (ap attempt {x = i} {y = i + 0} (omega arith) ∙ a))
later attempt i failures (suc k) a f n =
    (k, ap attempt {x = suc i + k} {y = i + suc k} (omega arith) ∙ a, omega (arith, f))

module _ {M : Type 0} where
  -- A flush that sent `ms` and left nothing.
  pub record Drains (ms : List M) (o : Option (Flushed M)) : Type 0 where
    pub flushed : Flushed M
    pub ended : o ≡ some flushed
    pub sent_all : flushed.sent ≡ ms
    pub left_none : flushed.rest.queue ≡ []
    pub drained_it : flushed.ending ≡ drained

  flush_attempt-Drains :
      (outcome : Attempt) (loop : ℕ → StreamMessageQueue M → Option (Flushed M)) (failures : ℕ)
      (mq : StreamMessageQueue M) (msg : M) (ms : List M)
      → length ms < mq.max_size
      → outcome ≢ client_closing
      → (outcome ≡ sent_directly → Drains ms (loop 0 (record mq { queue = ms })))
      → (outcome ≡ not_sent
          → Drains (msg ∷ ms) (loop (suc failures) (record mq { queue = msg ∷ ms })))
      → Drains (msg ∷ ms) (flush_attempt outcome loop failures (record mq { queue = ms }) msg)
  unfolding flush_attempt
  flush_attempt-Drains client_closing loop failures mq msg ms b n hs hf = absurd (n refl)
  flush_attempt-Drains sent_directly loop failures mq msg ms b n hs hf =
      let h = hs refl in
      record {
        flushed = with_sent msg h.flushed;
        ended = ap (Option.map (with_sent msg)) h.ended;
        sent_all = ap (λ t. msg ∷ t) h.sent_all;
        left_none = h.left_none;
        drained_it = h.drained_it;
      }
  flush_attempt-Drains not_sent loop failures mq msg ms b n hs hf =
      subst (λ q. Drains (msg ∷ ms) (loop (suc failures) q))
        (sym (requeue_front-queue (record mq { queue = ms }) msg b)) (hf refl)

  module _ (attempt : ℕ → Attempt) (open_ : (j : ℕ) → attempt j ≢ client_closing)
      (answers : (j : ℕ) → (k : ℕ) × (k < max_failures) × (attempt (j + k) ≡ sent_directly)) where
    flush_loop-Drains :
        (fuel i failures k : ℕ) (ms : List M) (mq : StreamMessageQueue M)
        → attempt (i + k) ≡ sent_directly
        → failures + k < max_failures
        → length ms ≤ mq.max_size
        → length ms * suc max_failures + (suc max_failures - failures) ≤ fuel
        → Drains ms (flush_loop attempt fuel i failures (record mq { queue = ms }))
    unfolding flush_loop dequeue_from flush_next
    flush_loop-Drains zero i failures k ms mq a f b h = absurd (omega arith)
    flush_loop-Drains (suc fuel) i failures k [] mq a f b h =
        if_cases (Drains []) (leb max_failures failures) (λ e. absurd (ground arith))
          (λ e. record {
            flushed = _;
            ended = refl;
            sent_all = refl;
            left_none = refl;
            drained_it = refl;
          })
    flush_loop-Drains (suc fuel) i failures k (msg ∷ ms) mq a f b h =
        if_cases (Drains (msg ∷ ms)) (leb max_failures failures) (λ e. absurd (ground arith))
          (λ e.
            flush_attempt-Drains (attempt i) (flush_loop attempt fuel (suc i)) failures mq msg ms b
              (open_ i)
              (λ s.
                let (k', l, a') = answers (suc i) in
                flush_loop-Drains fuel (suc i) 0 k' ms mq a' (omega (arith, l)) (omega (arith, b))
                  (omega (arith, h, f)))
              (λ n.
                let (k', a', l) = later attempt i failures k a f n in
                flush_loop-Drains fuel (suc i) (suc failures) k' (msg ∷ ms) mq a' l b
                  (omega (arith, h, f))))

    -- A flush of a queue that holds at most its size, to a client that does not close and that takes
    -- at least one of any hundred attempts in a row, sends all its messages in order.
    pub flush-Drains :
        (mq : StreamMessageQueue M)
        → IsBounded mq
        → mq.flushing ≡ false
        → Drains mq.queue (flush attempt mq)
    unfolding flush
    flush-Drains mq b e =
        let (k, l, a) = answers 0 in
        let go =
          flush_loop-Drains (flush_fuel mq) 0 0 k mq.queue (record mq { flushing = true }) a
            (omega (arith, l)) b.bounded (omega arith) in
        if_cases (Drains mq.queue) mq.flushing (λ t. absurd (ground (arith, t, e)))
          (λ f. record {
            flushed = end_flush go.flushed;
            ended = ap (Option.map end_flush) go.ended;
            sent_all = go.sent_all;
            left_none = go.left_none;
            drained_it = go.drained_it;
          })
