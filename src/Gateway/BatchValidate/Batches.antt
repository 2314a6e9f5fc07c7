-- ===== src/Gateway/BatchValidate/Batches.antt =====
-- A sweep in batches, where the login server answers and where it does not
-- (internal/gateway/batch_validate.go).
use sgate.Prelude.{
  ℕ, zero, suc, ◌+◌, ◌<◌, ◌≡◌, refl, String, Bool, true, not, ◌&&◌, List, [], ◌∷◌, ◌++◌, map,
  Option, none, some, if◌then◌else◌, length, take, drop, arith, length-drop, length-map,
}
use sgate.Prelude.Maps.{Map}
use sgate.Connection.Manager.{Conn}
use sgate.Gateway.BatchValidate.{
  BatchSweepItem, collect, unchanged, kick_invalid, check_batch, sweep_from,
  run_batch_validate_sweep,
}

module _ (valid : BatchSweepItem → Bool) (current : String → String × String) where
  -- The connections that one look at each session would close.
  unfoldable pub invalid : List BatchSweepItem → List String
  invalid [] = []
  invalid (it ∷ its) =
      let rest = invalid its in
      if not (valid it) && unchanged (λ b. some (map valid b)) current it
      then it.connection_id ∷ rest
      else rest

  abbrev pub answers : List BatchSweepItem → Option (List Bool)
  answers batch = some (map valid batch)

  kick_invalid-answers :
      (batch : List BatchSweepItem)
      → kick_invalid answers current batch (map valid batch) ≡ invalid batch
  unfolding kick_invalid invalid
  kick_invalid-answers [] = refl
  kick_invalid-answers (it ∷ its) = ground (arith, kick_invalid-answers its)

  invalid_parts :
      (n : ℕ) (its : List BatchSweepItem)
      → invalid (take n its) ++ invalid (drop n its) ≡ invalid its
  unfolding invalid
  invalid_parts zero its = refl
  invalid_parts (suc n) [] = refl
  invalid_parts (suc n) (it ∷ its) = ground (arith, invalid_parts n its)

  length_parts :
      (n : ℕ) (its : List BatchSweepItem) → length (take n its) + length (drop n its) ≡ length its
  length_parts zero its = omega arith
  length_parts (suc n) [] = omega arith
  length_parts (suc n) (it ∷ its) = omega (arith, length_parts n its)

  check_batch-answers :
      (batch : List BatchSweepItem)
      → check_batch answers current batch
        ≡ record { checked = length batch; kicked = invalid batch; rpc_failed = 0 }
  unfolding check_batch
  check_batch-answers batch = ground (arith, length-map valid batch, kick_invalid-answers batch)

  sweep_from-answers :
      (fuel size : ℕ) (its : List BatchSweepItem)
      → 0 < size
      → length its < fuel
      → sweep_from answers current fuel size its
        ≡ record { checked = length its; kicked = invalid its; rpc_failed = 0 }
  unfolding sweep_from
  sweep_from-answers zero size its p h = elim h [ ]
  sweep_from-answers (suc fuel) size [] p h = unfold invalid in refl
  sweep_from-answers (suc fuel) size (it ∷ its) p h = ground (
    arith,
    check_batch-answers (take size (it ∷ its)),
    sweep_from-answers fuel size (drop size (it ∷ its)) p
        (omega (arith, length-drop size (it ∷ its))),
    invalid_parts size (it ∷ its),
    length_parts size (it ∷ its),
  )

  -- If the login server answers for each session of a batch by itself, a sweep in batches of any
  -- positive size looks at every session once, and closes, in order, the connections whose session
  -- is invalid and still theirs.
  pub sweep-invalid :
      (size : ℕ) (conns : Map String Conn)
      → 0 < size
      → run_batch_validate_sweep answers current size conns ≡ record {
        checked = length (collect conns);
        kicked = invalid (collect conns);
        rpc_failed = 0;
      }
  unfolding run_batch_validate_sweep
  sweep-invalid size conns p =
      sweep_from-answers (suc (length (collect conns))) size (collect conns) p (omega arith)

abbrev pub no_answer : List BatchSweepItem → Option (List Bool)
no_answer batch = none

failed_from :
    (current : String → String × String) (fuel size : ℕ) (its : List BatchSweepItem)
    → 0 < size
    → length its < fuel
    → sweep_from no_answer current fuel size its
      ≡ record { checked = 0; kicked = []; rpc_failed = length its }
unfolding sweep_from check_batch
failed_from current zero size its p h = elim h [ ]
failed_from current (suc fuel) size [] p h = refl
failed_from current (suc fuel) size (it ∷ its) p h = ground (
  arith,
  failed_from current fuel size (drop size (it ∷ its)) p
      (omega (arith, length-drop size (it ∷ its))),
  length_parts (λ i. true) current size (it ∷ its),
)

-- While the login server does not answer, a sweep closes no connection: every session counts as not
-- checked, whatever the size of the batches, if it is positive.
pub sweep_unanswered :
    (current : String → String × String) (size : ℕ) (conns : Map String Conn)
    → 0 < size
    → run_batch_validate_sweep no_answer current size conns
      ≡ record { checked = 0; kicked = []; rpc_failed = length (collect conns) }
unfolding run_batch_validate_sweep
sweep_unanswered current size conns p =
    failed_from current (suc (length (collect conns))) size (collect conns) p (omega arith)
