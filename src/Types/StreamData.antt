-- ===== src/Types/StreamData.antt =====
-- The message that clients, the gateway and the logic servers exchange (StreamData of the protocol),
-- with the fields that the code reads.
use sgate.Prelude.{String, Bool, nat_beq, false}
use sgate.Prelude.Int.{ℤ, pos, negsuc}
use sgate.Prelude.Bytes.{Bytes}

pub record StreamData : Type 0 where
  pub session_id : String
  pub user_key : String
  pub client_ip : String
  pub cmd : ℤ
  pub seq_id : ℤ
  pub data_bytes : Bytes

abbrev pub is_zero : ℤ → Bool
is_zero (pos n) = nat_beq n 0
is_zero (negsuc n) = false
