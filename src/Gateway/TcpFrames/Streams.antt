-- ===== src/Gateway/TcpFrames/Streams.antt =====
-- The frames of a well-formed stream (internal/gateway/handlers.go).
use sgate.Prelude.{
  ℕ, zero, suc, ◌+◌, ◌<◌, ◌≤◌, ◌≡◌, refl, sym, ap, ◌∙◌, Bool, true, false, List, [], ◌∷◌, ◌++◌,
  none, some, if◌then◌else◌, length, drop, arith, length-append, ltb-false, All, take_left,
  drop_left, drop-drop,
}
use sgate.Prelude.Bytes.{
  Bytes, put_uint32, uint32-put_uint32, drop-put_uint32, length-put_uint32_append,
}
use sgate.Gateway.TcpFrames.{no_frames, bad_length, feed_frames}
use sgate.Gateway.TcpFrames.Scan.{View, view, scan}
use sgate.Gateway.TcpFrames.Chunks.{feed_frames-scan}

-- The frames of a well-formed stream, as clients send them.
unfoldable pub stream_of : List Bytes → Bytes
stream_of [] = []
stream_of (f ∷ fs) = put_uint32 (length f) ++ (f ++ stream_of fs)

abbrev pub IsFrame : ℕ → Bytes → Type 0
IsFrame max_frame f = (0 < length f) × (length f ≤ max_frame)

-- The callback on frame after frame, as long as it says to go on.
unfoldable pub deliver : {S : Type 0} → (S → Bytes → S × Bool) → S → List Bytes → S × Bool
deliver fn s [] = (s, true)
deliver fn s (f ∷ fs) =
    let (s', go_on) = fn s f in let rest = deliver fn s' fs in if go_on then rest else (s', false)

unfoldable pub delivered : {S : Type 0} → S × Bool → View S
delivered (s, go_on) = (if go_on then some [] else none, s)

module _ {S : Type 0} (fn : S → Bytes → S × Bool) (max_frame : ℕ)
    (small : max_frame < 4294967296) where
  good_length : (n : ℕ) → 0 < n → n ≤ max_frame → bad_length max_frame n ≡ false
  good_length n h h' = ground arith

  drop-unit : (f rest : Bytes) → drop (4 + length f) (put_uint32 (length f) ++ (f ++ rest)) ≡ rest
  drop-unit f rest =
      sym (drop-drop (length f) 4 (put_uint32 (length f) ++ (f ++ rest)))
      ∙ ap (drop (length f)) (drop-put_uint32 (length f) (f ++ rest))
      ∙ drop_left f rest

  scan-frame :
      (fuel : ℕ) (f rest : Bytes) (s : S)
      → IsFrame max_frame f
      → scan fn max_frame (suc fuel) (put_uint32 (length f) ++ (f ++ rest)) s
        ≡ (if (fn s f).1 then scan fn max_frame fuel rest (fn s f).0 else (none, (fn s f).0))
  unfolding scan
  scan-frame fuel f rest s frame =
      let xs = put_uint32 (length f) ++ (f ++ rest) in
      rw
        (
          ltb-false (length xs) 4 (omega (arith, length-put_uint32_append (length f) (f ++ rest))),
          uint32-put_uint32 (length f) (f ++ rest) (omega (arith, frame.1, small)),
          drop-put_uint32 (length f) (f ++ rest),
          take_left f rest,
          ltb-false (length xs) (4 + length f) (
              omega (arith, length-put_uint32_append (length f) (f ++ rest), length-append f rest)),
        )
        (rw (good_length (length f) frame.0 frame.1) (rw (drop-unit f rest) refl))

  scan-stream_of :
      (fuel : ℕ) (fs : List Bytes) (s : S)
      → All (IsFrame max_frame) fs
      → length (stream_of fs) < fuel
      → scan fn max_frame fuel (stream_of fs) s ≡ delivered (deliver fn s fs)
  unfolding delivered deliver stream_of
  scan-stream_of zero fs s v h = elim h [ ]
  scan-stream_of (suc fuel) [] s v h = unfold scan in refl
  scan-stream_of (suc fuel) (f ∷ fs) s v h = ground (
    arith,
    scan-frame fuel f (stream_of fs) s v.0,
    scan-stream_of fuel fs (fn s f).0 v.1,
    length-put_uint32_append (length f) (f ++ stream_of fs),
    length-append f (stream_of fs),
  )

  -- A well-formed stream, read at once by a connection with nothing pending and within the buffer's
  -- limit: the callback gets exactly its frames, in order, until it says to stop; if it never does,
  -- the connection goes on and nothing is pending.
  pub feed_frames-stream_of :
      (max_frame_buf : ℕ) (fs : List Bytes) (s : S)
      → All (IsFrame max_frame) fs
      → length (stream_of fs) ≤ max_frame_buf
      → view (feed_frames fn max_frame max_frame_buf no_frames (stream_of fs) s)
        ≡ delivered (deliver fn s fs)
  feed_frames-stream_of max_frame_buf fs s v room =
      feed_frames-scan fn max_frame max_frame_buf no_frames (stream_of fs) s (omega arith)
        (omega arith)
      ∙ scan-stream_of (suc (length (stream_of fs))) fs s v (omega arith)
