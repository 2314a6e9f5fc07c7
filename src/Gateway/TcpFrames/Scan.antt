-- ===== src/Gateway/TcpFrames/Scan.antt =====
-- Deframing as a function of the pending bytes alone, and the loop of feedFrames as its
-- implementation (internal/gateway/handlers.go).
use sgate.Prelude.{
  ℕ, zero, suc, ◌+◌, ◌<◌, ◌≤◌, ◌≡◌, refl, Bool, List, [], ◌∷◌, ◌++◌, Option, none, some,
  if◌then◌else◌, ltb, length, take, drop, arith, inl, inr, Bool-cases, length-append, length-drop,
  take-append_le, drop-append_le, drop-drop,
}
use sgate.Prelude.Bytes.{Bytes, uint32, uint32-append}
use sgate.Gateway.TcpFrames.{ConnContext, pending, bad_length, feed_loop}

-- The context that a call leaves, as its caller may read it: what is pending if the connection
-- goes on, nothing if it is closed.
abbrev pub View : Type 0 → Type 0
View S = Option Bytes × S

abbrev pub view : {S : Type 0} → ConnContext × S × Bool → View S
view (ctx, s, ok) = (if ok then some (pending ctx) else none, s)

nil_of_length : {A : Type 0} (xs : List A) → length xs ≡ 0 → xs ≡ []
nil_of_length [] h = refl
nil_of_length (x ∷ xs) h = absurd (omega arith)

consumed_all : (ctx : ConnContext) → ctx.frame_off ≡ length ctx.frame_buf → pending ctx ≡ []
consumed_all ctx h =
    nil_of_length (pending ctx) (omega (arith, length-drop ctx.frame_off ctx.frame_buf))

module _ {S : Type 0} (fn : S → Bytes → S × Bool) (max_frame : ℕ) where
  -- Deframing as a function of the pending bytes alone.
  unfoldable pub scan : ℕ → Bytes → S → View S
  scan zero xs s = (some xs, s)
  scan (suc fuel) xs s =
      let n = uint32 xs in
      let r = fn s (take n (drop 4 xs)) in
      let rest = scan fuel (drop (4 + n) xs) r.0 in
      if ltb (length xs) 4
      then (some xs, s)
      else if bad_length max_frame n
      then (none, s)
      else if ltb (length xs) (4 + n)
      then (some xs, s)
      else if r.1
      then rest
      else (none, r.0)

  pub feed_loop-scan :
      (fuel : ℕ) (ctx : ConnContext) (s : S)
      → ctx.frame_off ≤ length ctx.frame_buf
      → view (feed_loop fn max_frame fuel ctx s) ≡ scan fuel (pending ctx) s
  unfolding feed_loop scan
  feed_loop-scan zero ctx s h = refl
  feed_loop-scan (suc fuel) ctx s h = elim (Bool-cases (ltb (length (pending ctx)) 4)) [
    | inl short ↦ ground (arith, consumed_all ctx)
    | inr long ↦ elim (Bool-cases (ltb (length (pending ctx)) (4 + uint32 (pending ctx)))) [
      | inl partial ↦ ground arith
      | inr whole ↦ ground (
        arith,
        drop-drop (4 + uint32 (pending ctx)) ctx.frame_off ctx.frame_buf,
        length-drop ctx.frame_off ctx.frame_buf,
        feed_loop-scan fuel (record ctx { frame_off = ctx.frame_off + (4 + uint32 (pending ctx)) })
            (fn s (take (uint32 (pending ctx)) (drop 4 (pending ctx)))).0,
      )
    ]
  ]

  -- Fuel beyond the length makes no difference.
  pub scan_fuel :
      (fuel more : ℕ) (xs : Bytes) (s : S)
      → length xs < fuel
      → length xs < more
      → scan fuel xs s ≡ scan more xs s
  unfolding scan
  scan_fuel zero more xs s h h' = elim h [ ]
  scan_fuel (suc fuel) zero xs s h h' = elim h' [ ]
  scan_fuel (suc fuel) (suc more) xs s h h' = ground (
    arith,
    length-drop (4 + uint32 xs) xs,
    scan_fuel fuel more (drop (4 + uint32 xs) xs) (fn s (take (uint32 xs) (drop 4 xs))).0,
  )

  -- Going on with more bytes.
  unfoldable pub resume : ℕ → Bytes → View S → View S
  unfolding scan
  resume more ys (none, s) = (none, s)
  resume more ys (some rest, s) = scan more (rest ++ ys) s

  pub scan-append :
      (fuel more : ℕ) (xs ys : Bytes) (s : S)
      → length (xs ++ ys) < fuel
      → length (xs ++ ys) < more
      → scan fuel (xs ++ ys) s ≡ resume more ys (scan fuel xs s)
  unfolding scan resume
  scan-append zero more xs ys s h h' = elim h [ ]
  scan-append (suc fuel) more xs ys s h h' = elim (Bool-cases (ltb (length xs) 4)) [
    | inl short ↦ rw short (scan_fuel (suc fuel) more (xs ++ ys) s h h')
    | inr long ↦ elim (Bool-cases (bad_length max_frame (uint32 xs))) [
      | inl bad ↦ ground (arith, uint32-append xs ys, length-append xs ys)
      | inr good ↦ elim (Bool-cases (ltb (length xs) (4 + uint32 xs))) [
        | inl partial ↦ rw (long, good, partial) (scan_fuel (suc fuel) more (xs ++ ys) s h h')
        | inr whole ↦
            let n = uint32 xs in
            ground (
              arith,
              uint32-append xs ys,
              length-append xs ys,
              length-append (drop (4 + n) xs) ys,
              length-drop (4 + n) xs,
              drop-append_le 4 xs ys,
              drop-append_le (4 + n) xs ys,
              take-append_le n (drop 4 xs) ys,
              length-drop 4 xs,
              scan-append fuel more (drop (4 + n) xs) ys (fn s (take n (drop 4 xs))).0,
            )
      ]
    ]
  ]

  -- What is left over is no longer than what was there.
  pub scan_rest-le :
      (fuel : ℕ) (xs rest : Bytes) (s : S)
      → (scan fuel xs s).0 ≡ some rest
      → length rest ≤ length xs
  unfolding scan
  scan_rest-le zero xs rest s e = ground arith
  scan_rest-le (suc fuel) xs rest s e = ground (
    arith,
    length-drop (4 + uint32 xs) xs,
    scan_rest-le fuel (drop (4 + uint32 xs) xs) rest (fn s (take (uint32 xs) (drop 4 xs))).0,
  )

  pub feed_loop_offset :
      (fuel : ℕ) (ctx : ConnContext) (s : S)
      → ctx.frame_off ≤ length ctx.frame_buf
      → (feed_loop fn max_frame fuel ctx s).0.frame_off
        ≤ length (feed_loop fn max_frame fuel ctx s).0.frame_buf
  unfolding feed_loop
  feed_loop_offset zero ctx s h = h
  feed_loop_offset (suc fuel) ctx s h = ground (
    arith,
    length-drop ctx.frame_off ctx.frame_buf,
    feed_loop_offset fuel (record ctx { frame_off = ctx.frame_off + (4 + uint32 (pending ctx)) })
        (fn s (take (uint32 (pending ctx)) (drop 4 (pending ctx)))).0,
  )
