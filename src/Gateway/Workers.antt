-- ===== src/Gateway/Workers.antt =====
-- internal/gateway/pipeline.go, PipelineWorkerPool: the shards of workers that messages wait for.
-- A task `T` carries its connection; what the worker does with it is the pipeline's. `fnv` stands
-- for uhash.FNV1a32. TCP and WebSocket tasks are submitted alike.
pub mod Order
use sgate.Prelude.{
  ℕ, zero, suc, ◌+◌, ◌*◌, ◌/◌, ◌%◌, String, Bool, true, false, List, [], ◌∷◌, ◌++◌, Option, none,
  some, if◌then◌else◌, ltb, leb, length, get_or, set, replicate,
}
use sgate.Prelude.Int.{ℤ, pos, negsuc}

pub record PipelineWorkerPool (T : Type 0) : Type 0 where
  pub workers : List (List T)
  pub shards : ℕ
  pub per_shard : ℕ
  pub submitted : ℕ
  pub dropped : ℕ
  pub messages_dropped_full : ℕ

abbrev pub default_worker_queue_size : ℕ
default_worker_queue_size = 65536

-- A setting that is not positive is replaced.
abbrev pub positive_or : ℤ → ℕ → ℕ
positive_or (pos zero) default = default
positive_or (pos (suc n)) default = suc n
positive_or (negsuc n) default = default

abbrev pub at_least_1 : ℕ → ℕ
at_least_1 n = if leb 1 n then n else 1

module _ {T : Type 0} where
  -- `procs` stands for runtime.GOMAXPROCS(0).
  unfoldable pub new_pipeline_worker_pool : ℕ → ℤ → ℤ → PipelineWorkerPool T
  new_pipeline_worker_pool procs worker_shards worker_queue_size =
      let shards = positive_or worker_shards (procs * 4) in
      let queue_size = positive_or worker_queue_size default_worker_queue_size in
      record {
        workers = replicate shards [];
        shards = shards;
        per_shard = at_least_1 (queue_size / shards);
        submitted = 0;
        dropped = 0;
        messages_dropped_full = 0;
      }

  abbrev pub queue_of : PipelineWorkerPool T → ℕ → List T
  queue_of p shard = get_or p.workers shard []

  -- The next task of a worker.
  unfoldable pub take_task : List T → PipelineWorkerPool T → ℕ → PipelineWorkerPool T × List T
  take_task [] p shard = (p, [])
  take_task (t ∷ ts) p shard = (record p { workers = set p.workers shard ts }, t ∷ [])

  abbrev pub run_worker : PipelineWorkerPool T → ℕ → PipelineWorkerPool T × List T
  run_worker p shard = take_task (queue_of p shard) p shard

  abbrev pub depth : List (List T) → ℕ
  depth [] = 0
  depth (q ∷ qs) = length q + depth qs

  unfoldable pub stats : PipelineWorkerPool T → ℕ × ℕ × ℕ
  stats p = (p.submitted, p.dropped, depth p.workers)

  module _ (fnv : String → ℕ) (connection_of : T → String) where
    abbrev pub get_shard : PipelineWorkerPool T → String → ℕ
    get_shard p connection_id = fnv connection_id % p.shards

    unfoldable pub submit : PipelineWorkerPool T → T → PipelineWorkerPool T × Bool
    submit p task =
        let shard = get_shard p (connection_of task) in
        if ltb (length (queue_of p shard)) p.per_shard
        then (
          record p {
            workers = set p.workers shard (queue_of p shard ++ (task ∷ []));
            submitted = suc p.submitted;
          },
          true,
        )
        else (
          record p {
            submitted = suc p.submitted;
            dropped = suc p.dropped;
            messages_dropped_full = suc p.messages_dropped_full;
          },
          false,
        )
