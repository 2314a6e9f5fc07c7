-- ===== src/Gateway/BatchValidate.antt =====
-- internal/gateway/batch_validate.go: a sweep that has the login server check the sessions of all
-- connections, batch by batch, and closes those that are no longer valid. `validate` stands for
-- BatchValidateLoginTokens (streasure/protocol): the answers for a batch, or none if the call fails.
-- Without a client for the login server there is no sweep.
-- `current` gives the account and the login key of a connection when its answer is looked at.
pub mod Batches
use sgate.Prelude.{
  ℕ, zero, suc, ◌+◌, String, Bool, true, false, not, ◌&&◌, ◌||◌, List, [], ◌∷◌, ◌++◌, Option, none,
  some, if◌then◌else◌, nat_beq, length, take, drop, string_eq, ◌==◌,
}
use sgate.Prelude.Maps.{Map}
use sgate.Connection.Manager.{Conn}

pub record BatchSweepItem : Type 0 where
  pub account_id : String
  pub login_key : String
  pub connection_id : String

-- The sessions to check: those with an account and a login key.
unfoldable pub collect : Map String Conn → List BatchSweepItem
collect [] = []
collect ((id, conn) ∷ conns) =
    let rest = collect conns in
    if conn.account_id == "" || conn.login_key == ""
    then rest
    else record { account_id = conn.account_id; login_key = conn.login_key; connection_id = id }
      ∷ rest

-- What a sweep did: the answers looked at, the connections closed, the sessions not checked.
pub record Swept : Type 0 where
  pub checked : ℕ
  pub kicked : List String
  pub rpc_failed : ℕ

abbrev pub nothing_swept : Swept
nothing_swept = record { checked = 0; kicked = []; rpc_failed = 0 }

module _ (validate : List BatchSweepItem → Option (List Bool))
    (current : String → String × String) where
  -- The session is still the connection's.
  unfoldable pub unchanged : BatchSweepItem → Bool
  unchanged it =
      ((current it.connection_id).0 == it.account_id)
      && ((current it.connection_id).1 == it.login_key)

  -- The inner loop, over as many answers as the batch has.
  unfoldable pub kick_invalid : List BatchSweepItem → List Bool → List String
  kick_invalid [] valids = []
  kick_invalid (it ∷ its) [] = []
  kick_invalid (it ∷ its) (valid ∷ valids) =
      let rest = kick_invalid its valids in
      if not valid && unchanged it then it.connection_id ∷ rest else rest

  unfoldable pub check_batch : List BatchSweepItem → Swept
  check_batch batch = elim (validate batch) [
    | none ↦ record { checked = 0; kicked = []; rpc_failed = length batch }
    | some valids ↦
        if nat_beq (length valids) (length batch)
        then record { checked = length batch; kicked = kick_invalid batch valids; rpc_failed = 0 }
        else record { checked = 0; kicked = []; rpc_failed = length batch }
  ]

  -- The loop over the batches of `size` items, which is positive, so that fuel beyond the number of
  -- items is never used up.
  unfoldable pub sweep_from : ℕ → ℕ → List BatchSweepItem → Swept
  sweep_from zero size items = nothing_swept
  sweep_from (suc fuel) size [] = nothing_swept
  sweep_from (suc fuel) size (it ∷ its) =
      let one = check_batch (take size (it ∷ its)) in
      let rest = sweep_from fuel size (drop size (it ∷ its)) in
      record {
        checked = one.checked + rest.checked;
        kicked = one.kicked ++ rest.kicked;
        rpc_failed = one.rpc_failed + rest.rpc_failed;
      }

  unfoldable pub run_batch_validate_sweep : ℕ → Map String Conn → Swept
  run_batch_validate_sweep size conns =
      sweep_from (suc (length (collect conns))) size (collect conns)
