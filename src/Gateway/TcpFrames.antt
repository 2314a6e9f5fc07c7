-- ===== src/Gateway/TcpFrames.antt =====
-- internal/gateway/handlers.go: ConnContext and feedFrames, which cuts a TCP stream into frames.
-- The callback is a function on a state of its own that says whether to go on.
pub mod Scan
pub mod Chunks
pub mod Streams
use sgate.Prelude.{
  ℕ, zero, suc, ◌+◌, ◌-◌, ◌%◌, Bool, true, false, List, [], ◌∷◌, ◌++◌, ◌||◌, if◌then◌else◌, ltb,
  leb, nat_beq, length, take, drop,
}
use sgate.Prelude.Bytes.{Bytes, uint32}

pub record ConnContext : Type 0 where
  pub frame_buf : Bytes
  pub frame_off : ℕ

abbrev pub no_frames : ConnContext
no_frames = record { frame_buf = []; frame_off = 0 }

-- The bytes received and not consumed.
abbrev pub pending : ConnContext → Bytes
pending ctx = drop ctx.frame_off ctx.frame_buf

-- 0, or more than uint32(maxFrame).
abbrev pub bad_length : ℕ → ℕ → Bool
bad_length max_frame frame_len = nat_beq frame_len 0 || ltb (max_frame % 4294967296) frame_len

module _ {S : Type 0} (fn : S → Bytes → S × Bool) (max_frame : ℕ) where
  -- The loop. Each round consumes at least five bytes, so fuel beyond the buffer's length is never
  -- used up.
  unfoldable pub feed_loop : ℕ → ConnContext → S → ConnContext × S × Bool
  feed_loop zero ctx s = (ctx, s, true)
  feed_loop (suc fuel) ctx s =
      let frame_len = uint32 (pending ctx) in
      let total_len = 4 + frame_len in
      let (s', go_on) = fn s (take frame_len (drop 4 (pending ctx))) in
      let next = record ctx { frame_off = ctx.frame_off + total_len } in
      let rest = feed_loop fuel next s' in
      if ltb (length (pending ctx)) 4
      then (if nat_beq ctx.frame_off (length ctx.frame_buf) then no_frames else ctx, s, true)
      else if bad_length max_frame frame_len
      then (no_frames, s, false)
      else if ltb (length (pending ctx)) total_len
      then (ctx, s, true)
      else if go_on
      then rest
      else (next, s', false)

  unfoldable pub feed_frames : ℕ → ConnContext → Bytes → S → ConnContext × S × Bool
  feed_frames max_frame_buf ctx incoming s =
      if ltb max_frame_buf (length ctx.frame_buf - ctx.frame_off + length incoming)
      then (no_frames, s, false)
      else let moved = if ltb 0 ctx.frame_off then pending ctx else ctx.frame_buf in
        let buf = moved ++ incoming in
        feed_loop (suc (length buf)) (record { frame_buf = buf; frame_off = 0 }) s
