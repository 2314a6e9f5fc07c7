-- ===== src/Backend/Queue/Flush.antt =====
-- How the flush of a queue ends, and what becomes of its messages (internal/backend/client.go).
-- The flush is taken alone: nothing is enqueued while it runs.
use sgate.Prelude.{
  ℕ, zero, suc, ◌+◌, ◌-◌, ◌*◌, ◌<◌, ◌≤◌, ◌≡◌, refl, ap, Bool, true, false, List, [], ◌∷◌, ◌++◌,
  Option, some, if◌then◌else◌, subst, sym, length, leb, arith, if_cases,
}
use mathlib.Core.Option
use sgate.Backend.Queue.{
  StreamMessageQueue, tail, is_full, drop_oldest, dequeue_from, requeue_front, Attempt,
  client_closing, sent_directly, not_sent, FlushEnd, already_flushing, drained, closing, aborted,
  Flushed, with_sent, end_flush, max_failures, flush_fuel, flush_attempt, flush_next, flush_loop,
  flush,
}
use sgate.Backend.Queue.Bounds.{IsBounded}

module _ {M : Type 0} where
  -- What an ending says of the message in hand, of what was sent and of what is left.
  unfoldable pub IsEnd : FlushEnd → Flushed M → Type 0
  IsEnd already_flushing f = f.lost ≡ []
  IsEnd drained f = (f.lost ≡ []) × (f.rest.queue ≡ [])
  IsEnd closing f = length f.lost ≡ 1
  IsEnd aborted f = f.lost ≡ []

  -- A flush of the messages `ms` that ended.
  pub record IsFlush (ms : List M) (o : Option (Flushed M)) : Type 0 where
    pub flushed : Flushed M
    pub ended : o ≡ some flushed
    pub conserved : flushed.sent ++ (flushed.lost ++ flushed.rest.queue) ≡ ms
    pub as_said : IsEnd flushed.ending flushed

  with_sent-IsEnd : (e : FlushEnd) (msg : M) (f : Flushed M) → IsEnd e f → IsEnd e (with_sent msg f)
  unfolding IsEnd
  with_sent-IsEnd already_flushing msg f h = h
  with_sent-IsEnd drained msg f h = h
  with_sent-IsEnd closing msg f h = h
  with_sent-IsEnd aborted msg f h = h

  end_flush-IsEnd : (e : FlushEnd) (f : Flushed M) → IsEnd e f → IsEnd e (end_flush f)
  unfolding IsEnd
  end_flush-IsEnd already_flushing f h = h
  end_flush-IsEnd drained f h = h
  end_flush-IsEnd closing f h = h
  end_flush-IsEnd aborted f h = h

  with_sent-IsFlush :
      (msg : M) (ms : List M) (o : Option (Flushed M))
      → IsFlush ms o
      → IsFlush (msg ∷ ms) (Option.map (with_sent msg) o)
  with_sent-IsFlush msg ms o h = record {
    flushed = with_sent msg h.flushed;
    ended = ap (Option.map (with_sent msg)) h.ended;
    conserved = ap (λ t. msg ∷ t) h.conserved;
    as_said = with_sent-IsEnd h.flushed.ending msg h.flushed h.as_said;
  }

  end_flush-IsFlush :
      (ms : List M) (o : Option (Flushed M)) → IsFlush ms o → IsFlush ms (Option.map end_flush o)
  end_flush-IsFlush ms o h = record {
    flushed = end_flush h.flushed;
    ended = ap (Option.map end_flush) h.ended;
    conserved = h.conserved;
    as_said = end_flush-IsEnd h.flushed.ending h.flushed h.as_said;
  }

  pub requeue_front-queue :
      (mq : StreamMessageQueue M) (msg : M)
      → length mq.queue < mq.max_size
      → requeue_front mq msg ≡ record mq { queue = msg ∷ mq.queue }
  unfolding requeue_front drop_oldest
  requeue_front-queue mq msg h =
      ap
        (λ (b : Bool).
          let room = if b then record mq { queue = tail mq.queue } else mq in
          record room { queue = msg ∷ room.queue })
        {x = is_full mq} {y = false} (ground arith)

  flush_attempt-IsFlush :
      (outcome : Attempt) (loop : ℕ → StreamMessageQueue M → Option (Flushed M)) (failures : ℕ)
      (mq : StreamMessageQueue M) (msg : M) (ms : List M)
      → length ms < mq.max_size
      → IsFlush ms (loop 0 (record mq { queue = ms }))
      → IsFlush (msg ∷ ms) (loop (suc failures) (record mq { queue = msg ∷ ms }))
      → IsFlush (msg ∷ ms) (flush_attempt outcome loop failures (record mq { queue = ms }) msg)
  unfolding flush_attempt IsEnd
  flush_attempt-IsFlush client_closing loop failures mq msg ms b hs hf = record {
    flushed = record {
      rest = record mq { queue = ms };
      sent = [];
      lost = msg ∷ [];
      ending = closing;
    };
    ended = refl;
    conserved = refl;
    as_said = refl;
  }
  flush_attempt-IsFlush sent_directly loop failures mq msg ms b hs hf =
      with_sent-IsFlush msg ms _ hs
  flush_attempt-IsFlush not_sent loop failures mq msg ms b hs hf =
      subst (λ q. IsFlush (msg ∷ ms) (loop (suc failures) q))
        (sym (requeue_front-queue (record mq { queue = ms }) msg b)) hf

  flush_loop-IsFlush :
      (attempt : ℕ → Attempt) (fuel i failures : ℕ) (ms : List M) (mq : StreamMessageQueue M)
      → length ms ≤ mq.max_size
      → length ms * suc max_failures + (suc max_failures - failures) ≤ fuel
      → failures ≤ max_failures
      → IsFlush ms (flush_loop attempt fuel i failures (record mq { queue = ms }))
  unfolding flush_loop dequeue_from flush_next IsEnd
  flush_loop-IsFlush attempt zero i failures ms mq b h f = absurd (omega arith)
  flush_loop-IsFlush attempt (suc fuel) i failures [] mq b h f =
      if_cases (IsFlush []) (leb max_failures failures)
        (λ e. record { flushed = _; ended = refl; conserved = refl; as_said = refl })
        (λ e. record { flushed = _; ended = refl; conserved = refl; as_said = (refl, refl) })
  flush_loop-IsFlush attempt (suc fuel) i failures (msg ∷ ms) mq b h f =
      if_cases (IsFlush (msg ∷ ms)) (leb max_failures failures)
        (λ e. record { flushed = _; ended = refl; conserved = refl; as_said = refl })
        (λ e.
          flush_attempt-IsFlush (attempt i) (flush_loop attempt fuel (suc i)) failures mq msg ms b
            (flush_loop-IsFlush attempt fuel (suc i) 0 ms mq (omega (arith, b))
              (omega (arith, h, f)) (omega arith))
            (flush_loop-IsFlush attempt fuel (suc i) (suc failures) (msg ∷ ms) mq b
              (omega (arith, h, f)) (ground arith)))

  -- A flush of a queue that holds at most its size ends, however its attempts turn out. What it
  -- sent, the one message that is lost if the client is closing, and what is left in the queue are
  -- the messages of before in their order; after a flush that drained the queue none is left.
  pub flush-IsFlush :
      (attempt : ℕ → Attempt) (mq : StreamMessageQueue M)
      → IsBounded mq
      → IsFlush mq.queue (flush attempt mq)
  unfolding flush IsEnd
  flush-IsFlush attempt mq b =
      if_cases (IsFlush mq.queue) mq.flushing
        (λ e. record { flushed = _; ended = refl; conserved = refl; as_said = refl })
        (λ e. end_flush-IsFlush mq.queue _ (
          flush_loop-IsFlush attempt (flush_fuel mq) 0 0 mq.queue (record mq { flushing = true })
            b.bounded (omega arith) (omega arith)))
