-- ===== src/Backend/Scenarios.antt =====
-- The theorems on internal/backend, applied to concrete queues, clients and pools.
use sgate.Prelude.{
  ℕ, zero, suc, ◌+◌, ◌<◌, ap, ◌∙◌, ◌≡◌, ◌≢◌, refl, Bool, false, List, [], ◌∷◌, arith, string_eq,
  All,
}
use sgate.Prelude.Int.{pos}
use sgate.Backend.Queue.{
  queue_policy_drop, StreamMessageQueue, Attempt, client_closing, sent_directly, not_sent,
  max_failures, flush,
}
use sgate.Backend.Queue.Bounds.{IsBounded}
use sgate.Backend.Queue.Newest.{newest, enqueue_all, enqueue_all-newest}
use sgate.Backend.Queue.Flush.{IsFlush, flush-IsFlush}
use sgate.Backend.Queue.Drain.{Drains, flush-Drains}
use sgate.Backend.Client.Attached.{IsAttached}
use sgate.Backend.Pool.{
  LogicStreamMeta, StreamSettings, new_logic_client_pool, any_connected, pool_is_connected,
}
use sgate.Backend.Pool.Runs.{
  PoolEvent, stream_attaches, stream_detaches, pool_closes, pool_run, pool_run-connected,
}

abbrev few : StreamMessageQueue ℕ
few = record {
  queue = 1 ∷ 2 ∷ [];
  max_size = 3;
  policy = queue_policy_drop;
  flushing = false;
  closed = false;
}

few-IsBounded : IsBounded few
few-IsBounded = record { has_room = omega arith; bounded = omega arith }

-- Half of the attempts fail.
abbrev every_other : ℕ → Attempt
every_other zero = not_sent
every_other (suc zero) = sent_directly
every_other (suc (suc n)) = every_other n

every_other-open : (j : ℕ) → every_other j ≢ client_closing
every_other-open zero e = ground (arith, e)
every_other-open (suc zero) e = ground (arith, e)
every_other-open (suc (suc n)) e = every_other-open n e

abbrev never : ℕ → ℕ → Bool
never a b = false

flush-IsFlush_example : IsFlush few.queue (flush every_other few)
flush-IsFlush_example = flush-IsFlush every_other few few-IsBounded

enqueue_all-newest_example :
    (enqueue_all never few (3 ∷ 4 ∷ 5 ∷ [])).queue ≡ newest 3 (1 ∷ 2 ∷ 3 ∷ 4 ∷ 5 ∷ [])
enqueue_all-newest_example = enqueue_all-newest never few (3 ∷ 4 ∷ 5 ∷ []) refl few-IsBounded

abbrev settings : StreamSettings
settings = record { cpus = 2; send_channel_size = 8; queue_max = pos 3; policy = queue_policy_drop }

abbrev first_shard : LogicStreamMeta
first_shard = record { logic_id = "logic1"; zone = "a"; addr = ""; shard_idx = 0; shard_count = 2 }

abbrev second_shard : LogicStreamMeta
second_shard = record first_shard { shard_idx = 1 }

abbrev events : List PoolEvent
events =
    stream_attaches settings first_shard 7
    ∷ stream_attaches settings second_shard 8
    ∷ stream_detaches 0 1 8
    ∷ pool_closes
    ∷ []

pool_run-connected_example :
    (pool_is_connected (pool_run (new_logic_client_pool {M = ℕ}) events)
      ≡ any_connected
          (pool_run (new_logic_client_pool {M = ℕ}) events)
          (pool_run (new_logic_client_pool {M = ℕ}) events).clients)
    × All IsAttached (pool_run (new_logic_client_pool {M = ℕ}) events).made
pool_run-connected_example =
    pool_run-connected ℕ events (omega arith, (omega arith, (tt, (tt, tt))))

every_other-answers : (j : ℕ) → (k : ℕ) × (k < max_failures) × (every_other (j + k) ≡ sent_directly)
every_other-answers zero = (1, omega arith, refl)
every_other-answers (suc zero) = (0, omega arith, refl)
every_other-answers (suc (suc n)) =
    let (k, l, a) = every_other-answers n in
    let later = suc (suc (n + k)) in
    (k, l, ap every_other {x = suc (suc n) + k} {y = later} (omega arith) ∙ a)

flush-Drains_example : Drains few.queue (flush every_other few)
flush-Drains_example =
    flush-Drains every_other every_other-open every_other-answers few few-IsBounded refl
