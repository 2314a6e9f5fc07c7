-- ===== src/Connection/Frames.antt =====
-- internal/connection/ws_frame.go and the write coalescing of internal/connection/connection.go.
-- The pooled buffer behind the coalesced bytes is not modelled: only what is in it.
pub mod Reframe
use sgate.Prelude.{
  ℕ, zero, suc, ◌+◌, ◌/◌, ◌<◌, Bool, true, false, List, [], ◌∷◌, ◌++◌, Option, none, some,
  if◌then◌else◌, ltb, leb, length, take, drop,
}
use sgate.Prelude.Bytes.{Bytes, byte, put_uint32, put_uint64, uint32}

-- The header of a frame with a payload of `n` bytes.
unfoldable pub ws_header : ℕ → ℕ → Bytes
ws_header op_code n =
    if ltb n 126
    then op_code ∷ byte n ∷ []
    else if leb n 65535
    then op_code ∷ 126 ∷ byte (n / 256) ∷ byte n ∷ []
    else op_code ∷ 127 ∷ put_uint64 n

unfoldable pub encode_ws_frame : ℕ → Bytes → Bytes
encode_ws_frame op_code payload = ws_header op_code (length payload) ++ payload

-- The fields coalescedData and coalescedCount of a Connection.
pub record Coalesced : Type 0 where
  pub coalesced_data : Bytes
  pub coalesced_count : ℕ

abbrev pub nothing_coalesced : Coalesced
nothing_coalesced = record { coalesced_data = []; coalesced_count = 0 }

unfoldable pub append_coalesced : Coalesced → Bytes → Coalesced
append_coalesced c payload = record {
  coalesced_data = c.coalesced_data ++ (put_uint32 (length payload) ++ payload);
  coalesced_count = c.coalesced_count + 1;
}

-- FIN and the binary opcode.
abbrev pub binary_frame : ℕ
binary_frame = 0x82

abbrev pub empty_or : Bytes → Option Bytes → Option Bytes
empty_or [] r = some []
empty_or (b ∷ bs) r = r

abbrev pub after_frame : Bytes → Option Bytes → Option Bytes
after_frame frame none = none
after_frame frame (some out) = some (frame ++ out)

-- The loop of reframeCoalescedAsWSFrames over the bytes from `off` on; `none` is a nil result.
-- Each round consumes at least four bytes, so fuel beyond the length is never used up.
unfoldable pub reframe_from : ℕ → Bytes → Option Bytes
reframe_from zero bytes = none
reframe_from (suc fuel) bytes =
    let tail = drop 4 bytes in
    let n = uint32 bytes in
    let rest =
      after_frame (encode_ws_frame binary_frame (take n tail)) (reframe_from fuel (drop n tail)) in
    if ltb (length bytes) 4 then empty_or bytes none else if ltb (length tail) n then none else rest

unfoldable pub reframe_coalesced_as_ws_frames : Bytes → Option Bytes
reframe_coalesced_as_ws_frames bytes = reframe_from (suc (length bytes)) bytes

abbrev pub or_raw : Bytes → Option Bytes → Bytes
or_raw bytes none = bytes
or_raw bytes (some framed) = framed

-- What a flush hands to the socket, if anything, and the number of messages that it reports.
-- `accepts` says whether the write is taken: a connection with no socket, or a failed AsyncWrite,
-- does not.
unfoldable pub flush_coalesced : Bool → (Bytes → Bool) → Coalesced → Coalesced × Option Bytes × ℕ
flush_coalesced is_ws accepts c = elim c.coalesced_count [
  | zero ↦ (c, none, 0)
  | suc n ↦
      let out =
        if is_ws
        then or_raw c.coalesced_data (reframe_coalesced_as_ws_frames c.coalesced_data)
        else c.coalesced_data in
      (nothing_coalesced, some out, if accepts out then suc n else 0)
]
