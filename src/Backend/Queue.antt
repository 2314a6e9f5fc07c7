-- ===== src/Backend/Queue.antt =====
-- internal/backend/client.go: the queue that keeps messages while a logic server is away, and its
-- flush. Messages are only moved, so `M` is any type. `pressed length max_size` stands for the
-- comparison of length / max_size, in float64, with the threshold of the backpressure policy.
-- The queue is changed under its lock, so a call is one step; where a call waits for room, `wakes`
-- are what other calls do to the queue before each wake within the deadline.
pub mod Bounds
pub mod Newest
pub mod Flush
pub mod Drain
use sgate.Prelude.{
  ℕ, zero, suc, ◌+◌, ◌*◌, Bool, true, false, List, [], ◌∷◌, ◌++◌, Option, none, some, if◌then◌else◌,
  leb, length,
}
use sgate.Prelude.Int.{ℤ, pos, negsuc}
use mathlib.Core.Option

-- The settings hold a string; one that names no policy acts as `drop`.
pub data QueuePolicy : Type 0 where
  queue_policy_block queue_policy_timeout queue_policy_drop queue_policy_backpressure : QueuePolicy

pub data LogicError : Type 0 where
  err_not_connected err_connection_closing err_queue_full err_send_timeout : LogicError
  err_backpressure : LogicError

pub record StreamMessageQueue (M : Type 0) : Type 0 where
  pub queue : List M
  pub max_size : ℕ
  pub policy : QueuePolicy
  pub flushing : Bool
  pub closed : Bool

abbrev pub default_stream_queue_max_size : ℕ
default_stream_queue_max_size = 100000

unfoldable pub queue_size : ℤ → ℕ
queue_size (pos zero) = default_stream_queue_max_size
queue_size (pos (suc n)) = suc n
queue_size (negsuc n) = default_stream_queue_max_size

abbrev pub max_failures : ℕ
max_failures = 100

-- How one attempt of a flush ends: the client is closing, the message was sent, or it was not (the
-- client is not connected, or the send fails).
pub data Attempt : Type 0 where
  client_closing sent_directly not_sent : Attempt

-- How a flush ends: another one is running, the queue is empty, the client is closing, or too many
-- attempts failed one after the other.
pub data FlushEnd : Type 0 where
  already_flushing drained closing aborted : FlushEnd

pub record Flushed (M : Type 0) : Type 0 where
  pub rest : StreamMessageQueue M
  pub sent : List M
  -- the message in hand when the client is closing
  pub lost : List M
  pub ending : FlushEnd

module _ {M : Type 0} where
  unfoldable pub new_stream_message_queue : ℤ → QueuePolicy → StreamMessageQueue M
  new_stream_message_queue size policy = record {
    queue = [];
    max_size = queue_size size;
    policy = policy;
    flushing = false;
    closed = false;
  }

  unfoldable pub close_queue : StreamMessageQueue M → StreamMessageQueue M
  close_queue mq = record mq { closed = true }

  abbrev pub tail : List M → List M
  tail [] = []
  tail (m ∷ ms) = ms

  abbrev pub append : StreamMessageQueue M → M → StreamMessageQueue M
  append mq msg = record mq { queue = mq.queue ++ (msg ∷ []) }

  abbrev pub is_full : StreamMessageQueue M → Bool
  is_full mq = leb mq.max_size (length mq.queue)

  -- A full queue gives up its oldest message.
  unfoldable pub drop_oldest : StreamMessageQueue M → StreamMessageQueue M
  drop_oldest mq = if is_full mq then record mq { queue = tail mq.queue } else mq

  -- The block and timeout policies: a list of wakes that is at its end is a deadline that has passed.
  unfoldable pub enqueue_waiting :
      List (StreamMessageQueue M → StreamMessageQueue M)
      → StreamMessageQueue M
      → M
      → StreamMessageQueue M × Option LogicError
  enqueue_waiting [] mq msg =
      if is_full mq
      then (if mq.closed then (mq, some err_connection_closing) else (mq, some err_queue_full))
      else (append mq msg, none)
  enqueue_waiting (wake ∷ wakes) mq msg =
      let woken = enqueue_waiting wakes (wake mq) msg in
      if is_full mq
      then (if mq.closed then (mq, some err_connection_closing) else woken)
      else (append mq msg, none)

  unfoldable pub enqueue_by :
      QueuePolicy
      → (ℕ → ℕ → Bool)
      → List (StreamMessageQueue M → StreamMessageQueue M)
      → StreamMessageQueue M
      → M
      → StreamMessageQueue M × Option LogicError
  enqueue_by queue_policy_block pressed wakes mq msg = enqueue_waiting wakes mq msg
  enqueue_by queue_policy_timeout pressed wakes mq msg = enqueue_waiting wakes mq msg
  enqueue_by queue_policy_backpressure pressed wakes mq msg =
      if pressed (length mq.queue) mq.max_size
      then (mq, some err_backpressure)
      else (append (drop_oldest mq) msg, none)
  enqueue_by queue_policy_drop pressed wakes mq msg = (append (drop_oldest mq) msg, none)

  abbrev pub enqueue :
      (ℕ → ℕ → Bool)
      → List (StreamMessageQueue M → StreamMessageQueue M)
      → StreamMessageQueue M
      → M
      → StreamMessageQueue M × Option LogicError
  enqueue pressed wakes mq msg = enqueue_by mq.policy pressed wakes mq msg

  unfoldable pub dequeue_from : List M → StreamMessageQueue M → StreamMessageQueue M × Option M
  dequeue_from [] mq = (mq, none)
  dequeue_from (msg ∷ rest) mq = (record mq { queue = rest }, some msg)

  abbrev pub dequeue : StreamMessageQueue M → StreamMessageQueue M × Option M
  dequeue mq = dequeue_from mq.queue mq

  unfoldable pub requeue_front : StreamMessageQueue M → M → StreamMessageQueue M
  requeue_front mq msg = let room = drop_oldest mq in record room { queue = msg ∷ room.queue }

  abbrev pub with_sent : M → Flushed M → Flushed M
  with_sent msg f = record f { sent = msg ∷ f.sent }

  -- The body of a flush's loop on what it takes from the queue, where `loop failures` goes on.
  unfoldable pub flush_attempt :
      Attempt
      → (ℕ → StreamMessageQueue M → Option (Flushed M))
      → ℕ
      → StreamMessageQueue M
      → M
      → Option (Flushed M)
  flush_attempt client_closing loop failures mq msg =
      some (record { rest = mq; sent = []; lost = msg ∷ []; ending = closing })
  flush_attempt sent_directly loop failures mq msg = Option.map (with_sent msg) (loop 0 mq)
  flush_attempt not_sent loop failures mq msg = loop (suc failures) (requeue_front mq msg)

  unfoldable pub flush_next :
      Attempt
      → (ℕ → StreamMessageQueue M → Option (Flushed M))
      → ℕ
      → StreamMessageQueue M × Option M
      → Option (Flushed M)
  flush_next outcome loop failures (mq, none) =
      some (record { rest = mq; sent = []; lost = []; ending = drained })
  flush_next outcome loop failures (mq, some msg) = flush_attempt outcome loop failures mq msg

  -- The loop of a flush, on fuel: `attempt i` is the outcome of the i-th attempt, and `failures`
  -- counts those that failed one after the other. No one else changes the queue meanwhile.
  unfoldable pub flush_loop : (ℕ → Attempt) → ℕ → ℕ → ℕ → StreamMessageQueue M → Option (Flushed M)
  flush_loop attempt zero i failures mq = none
  flush_loop attempt (suc fuel) i failures mq =
      let next = flush_next (attempt i) (flush_loop attempt fuel (suc i)) failures (dequeue mq) in
      if leb max_failures failures
      then some (record { rest = mq; sent = []; lost = []; ending = aborted })
      else next

  abbrev pub flush_fuel : StreamMessageQueue M → ℕ
  flush_fuel mq = length mq.queue * suc max_failures + suc max_failures

  abbrev pub end_flush : Flushed M → Flushed M
  end_flush f = record f { rest = record f.rest { flushing = false } }

  unfoldable pub flush : (ℕ → Attempt) → StreamMessageQueue M → Option (Flushed M)
  flush attempt mq =
      if mq.flushing
      then some (record { rest = mq; sent = []; lost = []; ending = already_flushing })
      else Option.map end_flush
          (flush_loop attempt (flush_fuel mq) 0 0 (record mq { flushing = true }))
