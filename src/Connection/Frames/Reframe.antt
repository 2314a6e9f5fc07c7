-- ===== src/Connection/Frames/Reframe.antt =====
-- How coalesced messages come out as frames (internal/connection/connection.go).
use sgate.Prelude.{
  ℕ, zero, suc, ◌+◌, ◌<◌, ◌≡◌, refl, ap, ◌∙◌, Bool, List, [], ◌∷◌, ◌++◌, some, if◌then◌else◌,
  length, arith, All, append_assoc, append-nil, length-append, take_left, drop_left, ltb-false,
}
use sgate.Prelude.Bytes.{
  Bytes, put_uint32, uint32-put_uint32, drop-put_uint32, length-put_uint32_append,
}
use sgate.Connection.Frames.{
  Coalesced, nothing_coalesced, append_coalesced, encode_ws_frame, binary_frame, after_frame,
  reframe_from, reframe_coalesced_as_ws_frames, flush_coalesced,
}

-- The messages as the coalescer stores them, as TCP frames, and as binary WebSocket frames.
unfoldable pub tcp_frames : List Bytes → Bytes
tcp_frames [] = []
tcp_frames (p ∷ ps) = put_uint32 (length p) ++ (p ++ tcp_frames ps)

unfoldable pub ws_frames : List Bytes → Bytes
ws_frames [] = []
ws_frames (p ∷ ps) = encode_ws_frame binary_frame p ++ ws_frames ps

-- A length that the four-byte prefix holds.
abbrev pub Fits : Bytes → Type 0
Fits p = length p < 4294967296

unit_step :
    (fuel : ℕ) (p rest : Bytes)
    → Fits p
    → reframe_from (suc fuel) (put_uint32 (length p) ++ (p ++ rest))
      ≡ after_frame (encode_ws_frame binary_frame p) (reframe_from fuel rest)
unfolding reframe_from
unit_step fuel p rest fits =
    rw
      (
        ltb-false (length (put_uint32 (length p) ++ (p ++ rest))) 4
            (omega (arith, length-put_uint32_append (length p) (p ++ rest))),
        uint32-put_uint32 (length p) (p ++ rest) fits,
        drop-put_uint32 (length p) (p ++ rest),
      )
      (rw
        (
          ltb-false (length (p ++ rest)) (length p) (omega (arith, length-append p rest)),
          take_left p rest,
          drop_left p rest,
        )
        refl)

reframe_units :
    (fuel : ℕ) (ps : List Bytes)
    → All Fits ps
    → length (tcp_frames ps) < fuel
    → reframe_from fuel (tcp_frames ps) ≡ some (ws_frames ps)
unfolding tcp_frames ws_frames
reframe_units zero ps fits h = elim h [ ]
reframe_units (suc fuel) [] fits h = unfold reframe_from in refl
reframe_units (suc fuel) (p ∷ ps) fits h =
    unit_step fuel p (tcp_frames ps) fits.0
    ∙ ap (after_frame (encode_ws_frame binary_frame p)) (
        reframe_units fuel ps fits.1 (
          omega (
            arith,
            length-put_uint32_append (length p) (p ++ tcp_frames ps),
            length-append p (tcp_frames ps),
          )))

unfoldable pub append_all : Coalesced → List Bytes → Coalesced
append_all c [] = c
append_all c (p ∷ ps) = append_all (append_coalesced c p) ps

append_all_lem :
    (c : Coalesced) (ps : List Bytes)
    → append_all c ps ≡ record {
      coalesced_data = c.coalesced_data ++ tcp_frames ps;
      coalesced_count = c.coalesced_count + length ps;
    }
unfolding append_all append_coalesced tcp_frames
append_all_lem c [] = ground (arith, append-nil c.coalesced_data)
append_all_lem c (p ∷ ps) = ground (
  arith,
  append_all_lem (append_coalesced c p) ps,
  append_assoc c.coalesced_data (put_uint32 (length p) ++ p) (tcp_frames ps),
  append_assoc (put_uint32 (length p)) p (tcp_frames ps),
)

reframe_whole :
    (ps : List Bytes)
    → All Fits ps
    → reframe_coalesced_as_ws_frames (tcp_frames ps) ≡ some (ws_frames ps)
unfolding reframe_coalesced_as_ws_frames
reframe_whole ps fits = reframe_units (suc (length (tcp_frames ps))) ps fits (omega arith)

abbrev pub frames : Bool → List Bytes → Bytes
frames is_ws ps = if is_ws then ws_frames ps else tcp_frames ps

-- Messages that are coalesced on a connection with an empty buffer, at least one and each shorter
-- than 2^32 bytes, leave in one write, in order: length-prefixed on TCP, one binary frame each on
-- WebSocket. The buffer is empty afterwards, and the flush reports their number if the write is
-- taken, and 0 if not.
pub flush-append_all :
    (is_ws : Bool) (accepts : Bytes → Bool) (p : Bytes) (ps : List Bytes)
    → All Fits (p ∷ ps)
    → flush_coalesced is_ws accepts (append_all nothing_coalesced (p ∷ ps)) ≡ (
      nothing_coalesced,
      some (frames is_ws (p ∷ ps)),
      if accepts (frames is_ws (p ∷ ps)) then length (p ∷ ps) else 0,
    )
unfolding flush_coalesced
flush-append_all is_ws accepts p ps fits =
    ground (arith, append_all_lem nothing_coalesced (p ∷ ps), reframe_whole (p ∷ ps) fits)
