-- ===== src/Backend/Queue/Bounds.antt =====
-- How many messages the queue holds (internal/backend/client.go).
use sgate.Prelude.{
  ℕ, zero, suc, ◌-◌, ◌<◌, ◌≤◌, ◌≡◌, refl, Bool, List, [], ◌∷◌, Option, length, arith, length-append,
  if_cases,
}
use sgate.Prelude.Int.{ℤ, pos, negsuc}
use sgate.Backend.Queue.{
  LogicError, QueuePolicy, queue_policy_block, queue_policy_timeout, queue_policy_drop,
  queue_policy_backpressure, StreamMessageQueue, queue_size, new_stream_message_queue, close_queue,
  tail, append, is_full, drop_oldest, enqueue_waiting, enqueue_by, enqueue, dequeue_from, dequeue,
  requeue_front,
}

pub record IsBounded {M : Type 0} (mq : StreamMessageQueue M) : Type 0 where
  pub has_room : 0 < mq.max_size
  pub bounded : length mq.queue ≤ mq.max_size

-- What is called on a queue. A call that waits for room changes nothing until its last look at the
-- queue, which is the `op_enqueue`.
pub data QueueOp (M : Type 0) : Type 0 where
  op_enqueue : M → QueueOp M
  op_dequeue : QueueOp M
  op_requeue_front : M → QueueOp M
  op_close : QueueOp M

module _ {M : Type 0} where
  pub length-tail : (ms : List M) → length (tail ms) ≡ length ms - 1
  length-tail [] = refl
  length-tail (m ∷ ms) = omega arith

  pub drop_oldest-room :
      (mq : StreamMessageQueue M) → IsBounded mq → length (drop_oldest mq).queue < mq.max_size
  unfolding drop_oldest
  drop_oldest-room mq h =
      if_cases (λ (r : StreamMessageQueue M). length r.queue < mq.max_size) (is_full mq)
        (λ e. ground (arith, length-tail mq.queue)) (λ e. ground arith)

  pub drop_oldest-size : (mq : StreamMessageQueue M) → (drop_oldest mq).max_size ≡ mq.max_size
  unfolding drop_oldest
  drop_oldest-size mq =
      if_cases (λ (r : StreamMessageQueue M). r.max_size ≡ mq.max_size) (is_full mq) (λ e. refl)
        (λ e. refl)

  append-IsBounded :
      (mq : StreamMessageQueue M) (msg : M)
      → 0 < mq.max_size
      → length mq.queue < mq.max_size
      → IsBounded (append mq msg)
  append-IsBounded mq msg p h = record {
    has_room = p;
    bounded = omega (arith, length-append mq.queue (msg ∷ []));
  }

  pub new_queue-IsBounded :
      (size : ℤ) (policy : QueuePolicy) → IsBounded {M = M} (new_stream_message_queue size policy)
  unfolding new_stream_message_queue queue_size
  new_queue-IsBounded (pos zero) policy = record { has_room = omega arith; bounded = omega arith }
  new_queue-IsBounded (pos (suc n)) policy = record {
    has_room = omega arith;
    bounded = omega arith;
  }
  new_queue-IsBounded (negsuc n) policy = record { has_room = omega arith; bounded = omega arith }

  pub append-drop-IsBounded :
      (mq : StreamMessageQueue M) (msg : M) → IsBounded mq → IsBounded (append (drop_oldest mq) msg)
  append-drop-IsBounded mq msg h =
      append-IsBounded (drop_oldest mq) msg (omega (arith, h.has_room, drop_oldest-size mq))
        (omega (arith, drop_oldest-room mq h, drop_oldest-size mq))

  abbrev IsAnswer : StreamMessageQueue M × Option LogicError → Type 0
  IsAnswer r = IsBounded r.0

  waiting-IsBounded :
      (mq : StreamMessageQueue M) (msg : M) → IsBounded mq → IsBounded (enqueue_waiting [] mq msg).0
  unfolding enqueue_waiting
  waiting-IsBounded mq msg h =
      if_cases IsAnswer (is_full mq) (λ e. if_cases IsAnswer mq.closed (λ c. h) (λ c. h))
        (λ e. append-IsBounded mq msg h.has_room (ground arith))

  enqueue_by-IsBounded :
      (policy : QueuePolicy) (pressed : ℕ → ℕ → Bool) (mq : StreamMessageQueue M) (msg : M)
      → IsBounded mq
      → IsBounded (enqueue_by policy pressed [] mq msg).0
  unfolding enqueue_by
  enqueue_by-IsBounded queue_policy_block pressed mq msg h = waiting-IsBounded mq msg h
  enqueue_by-IsBounded queue_policy_timeout pressed mq msg h = waiting-IsBounded mq msg h
  enqueue_by-IsBounded queue_policy_drop pressed mq msg h = append-drop-IsBounded mq msg h
  enqueue_by-IsBounded queue_policy_backpressure pressed mq msg h =
      if_cases IsAnswer (pressed (length mq.queue) mq.max_size) (λ e. h)
        (λ e. append-drop-IsBounded mq msg h)

  pub enqueue-IsBounded :
      (pressed : ℕ → ℕ → Bool) (mq : StreamMessageQueue M) (msg : M)
      → IsBounded mq
      → IsBounded (enqueue pressed [] mq msg).0
  enqueue-IsBounded pressed mq msg h = enqueue_by-IsBounded mq.policy pressed mq msg h

  pub requeue_front-IsBounded :
      (mq : StreamMessageQueue M) (msg : M) → IsBounded mq → IsBounded (requeue_front mq msg)
  unfolding requeue_front
  requeue_front-IsBounded mq msg h = record {
    has_room = omega (arith, h.has_room, drop_oldest-size mq);
    bounded = omega (arith, drop_oldest-room mq h, drop_oldest-size mq);
  }

  dequeue_from-IsBounded :
      (ms : List M) (mq : StreamMessageQueue M)
      → length ms ≤ mq.max_size
      → IsBounded mq
      → IsBounded (dequeue_from ms mq).0
  unfolding dequeue_from
  dequeue_from-IsBounded [] mq b h = h
  dequeue_from-IsBounded (m ∷ ms) mq b h = record {
    has_room = h.has_room;
    bounded = omega (arith, b);
  }

  pub dequeue-IsBounded : (mq : StreamMessageQueue M) → IsBounded mq → IsBounded (dequeue mq).0
  dequeue-IsBounded mq h = dequeue_from-IsBounded mq.queue mq h.bounded h

module _ {M : Type 0} (pressed : ℕ → ℕ → Bool) where
  unfoldable pub call : StreamMessageQueue M → QueueOp M → StreamMessageQueue M
  call mq (op_enqueue msg) = (enqueue pressed [] mq msg).0
  call mq op_dequeue = (dequeue mq).0
  call mq (op_requeue_front msg) = requeue_front mq msg
  call mq op_close = close_queue mq

  unfoldable pub call_all : StreamMessageQueue M → List (QueueOp M) → StreamMessageQueue M
  call_all mq [] = mq
  call_all mq (op ∷ ops) = call_all (call mq op) ops

  call-IsBounded :
      (mq : StreamMessageQueue M) (op : QueueOp M) → IsBounded mq → IsBounded (call mq op)
  unfolding call close_queue
  call-IsBounded mq (op_enqueue msg) h = enqueue-IsBounded pressed mq msg h
  call-IsBounded mq op_dequeue h = dequeue-IsBounded mq h
  call-IsBounded mq (op_requeue_front msg) h = requeue_front-IsBounded mq msg h
  call-IsBounded mq op_close h = record { has_room = h.has_room; bounded = h.bounded }

  -- Whatever is called on a queue that holds at most its size (which is not 0), in whatever order,
  -- it holds at most its size afterwards.
  pub call_all-IsBounded :
      (mq : StreamMessageQueue M) (ops : List (QueueOp M))
      → IsBounded mq
      → IsBounded (call_all mq ops)
  unfolding call_all
  call_all-IsBounded mq [] h = h
  call_all-IsBounded mq (op ∷ ops) h = call_all-IsBounded (call mq op) ops (call-IsBounded mq op h)
