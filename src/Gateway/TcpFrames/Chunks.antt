-- ===== src/Gateway/TcpFrames/Chunks.antt =====
-- A TCP stream in one read and in several (internal/gateway/handlers.go).
use sgate.Prelude.{
  ℕ, suc, ◌+◌, ◌-◌, ◌<◌, ◌≤◌, ◌≡◌, refl, sym, ap, ◌∙◌, Bool, true, false, ◌++◌, none, if◌then◌else◌,
  ltb, length, drop, arith, inl, inr, Bool-cases, length-append, length-drop, ltb-false,
  append_assoc,
}
use sgate.Prelude.Bytes.{Bytes}
use sgate.Gateway.TcpFrames.{ConnContext, pending, feed_frames}
use sgate.Gateway.TcpFrames.Scan.{
  view, scan, resume, feed_loop-scan, scan_fuel, scan-append, scan_rest-le, feed_loop_offset,
}

-- The offset lies in the buffer.
abbrev pub InBuffer : ConnContext → Type 0
InBuffer ctx = ctx.frame_off ≤ length ctx.frame_buf

module _ {S : Type 0} (fn : S → Bytes → S × Bool) (max_frame : ℕ) where
  moved-eq-pending :
      (ctx : ConnContext)
      → (if ltb 0 ctx.frame_off then pending ctx else ctx.frame_buf) ≡ pending ctx
  moved-eq-pending ctx = elim (Bool-cases (ltb 0 ctx.frame_off)) [
    | inl used ↦ rw used refl
    | inr unused ↦
        let start : ctx.frame_off ≡ 0 = ground arith in
        rw unused (sym (ap (λ o. drop o ctx.frame_buf) start))
  ]

  pub feed_frames-scan :
      (max_frame_buf : ℕ) (ctx : ConnContext) (incoming : Bytes) (s : S)
      → InBuffer ctx
      → length (pending ctx) + length incoming ≤ max_frame_buf
      → view (feed_frames fn max_frame max_frame_buf ctx incoming s)
        ≡ scan fn max_frame (suc (length (pending ctx ++ incoming))) (pending ctx ++ incoming) s
  unfolding feed_frames
  feed_frames-scan max_frame_buf ctx incoming s h room =
      rw
        (
          moved-eq-pending ctx,
          ltb-false max_frame_buf (length ctx.frame_buf - ctx.frame_off + length incoming)
              (omega (arith, length-drop ctx.frame_off ctx.frame_buf)),
        )
        (feed_loop-scan fn max_frame (suc (length (pending ctx ++ incoming)))
          (record { frame_buf = pending ctx ++ incoming; frame_off = 0 }) s (omega arith))

  feed_frames-InBuffer :
      (max_frame_buf : ℕ) (ctx : ConnContext) (incoming : Bytes) (s : S)
      → InBuffer (feed_frames fn max_frame max_frame_buf ctx incoming s).0
  unfolding feed_frames
  feed_frames-InBuffer max_frame_buf ctx incoming s = ground (
    arith,
    feed_loop_offset fn max_frame
        (suc (length ((if ltb 0 ctx.frame_off then pending ctx else ctx.frame_buf) ++ incoming)))
        (record {
          frame_buf = (if ltb 0 ctx.frame_off then pending ctx else ctx.frame_buf) ++ incoming;
          frame_off = 0;
        })
        s,
  )

  -- What a second read does with what a first one left.
  resume-view :
      (more max_frame_buf : ℕ) (first : ConnContext × S × Bool) (b : Bytes)
      → InBuffer first.0
      → (first.2 ≡ true → length (pending first.0) + length b ≤ max_frame_buf)
      → (first.2 ≡ true → length (pending first.0) + length b < more)
      → resume fn max_frame more b (view first) ≡ (
          if first.2
          then view (feed_frames fn max_frame max_frame_buf first.0 b first.1)
          else (none, first.1))
  unfolding resume
  resume-view more max_frame_buf (ctx', s', false) b h room enough = refl
  resume-view more max_frame_buf (ctx', s', true) b h room enough =
      scan_fuel fn max_frame more (suc (length (pending ctx' ++ b))) (pending ctx' ++ b) s'
        (omega (arith, length-append (pending ctx') b, enough refl)) (omega arith)
      ∙ sym (feed_frames-scan max_frame_buf ctx' b s' h (room refl))

  left_over-le :
      (max_frame_buf : ℕ) (ctx : ConnContext) (a : Bytes) (s : S)
      → InBuffer ctx
      → length (pending ctx) + length a ≤ max_frame_buf
      → (feed_frames fn max_frame max_frame_buf ctx a s).2 ≡ true
      → length (pending (feed_frames fn max_frame max_frame_buf ctx a s).0)
        ≤ length (pending ctx) + length a
  left_over-le max_frame_buf ctx a s h room ok =
      let first = feed_frames fn max_frame max_frame_buf ctx a s in
      let same : view first
          ≡ scan fn max_frame (suc (length (pending ctx ++ a))) (pending ctx ++ a) s =
        feed_frames-scan max_frame_buf ctx a s h room in
      omega (
        arith,
        length-append (pending ctx) a,
        scan_rest-le fn max_frame (suc (length (pending ctx ++ a))) (pending ctx ++ a)
            (pending first.0) s (ap (λ v. v.0) (sym same) ∙ rw ok refl),
      )

  -- Reading two chunks one after the other is reading them at once: the callback sees the same
  -- frames in the same order, the connection is closed in the same cases, and the same bytes stay
  -- pending, provided that the buffer's limit allows for what is pending and both chunks.
  pub feed_frames-append :
      (max_frame_buf : ℕ) (ctx : ConnContext) (a b : Bytes) (s : S)
      → InBuffer ctx
      → length (pending ctx) + length a + length b ≤ max_frame_buf
      → let (ctx', s', ok) = feed_frames fn max_frame max_frame_buf ctx a s in
        view (feed_frames fn max_frame max_frame_buf ctx (a ++ b) s)
        ≡ (if ok then view (feed_frames fn max_frame max_frame_buf ctx' b s') else (none, s'))
  feed_frames-append max_frame_buf ctx a b s h room =
      let p = pending ctx in
      let fuel = suc (length (p ++ (a ++ b))) in
      let shorter : length (p ++ a) < fuel =
        omega (arith, length-append p (a ++ b), length-append a b, length-append p a) in
      let fits : length ((p ++ a) ++ b) < fuel = rw (append_assoc p a b) (omega arith) in
      feed_frames-scan max_frame_buf ctx (a ++ b) s h (omega (arith, length-append a b))
      ∙ ap (λ xs. scan fn max_frame fuel xs s) (sym (append_assoc p a b))
      ∙ scan-append fn max_frame fuel fuel (p ++ a) b s fits fits
      ∙ ap (resume fn max_frame fuel b) (
          scan_fuel fn max_frame fuel (suc (length (p ++ a))) (p ++ a) s shorter (omega arith)
          ∙ sym (feed_frames-scan max_frame_buf ctx a s h (omega arith)))
      ∙ resume-view fuel max_frame_buf (feed_frames fn max_frame max_frame_buf ctx a s) b
          (feed_frames-InBuffer max_frame_buf ctx a s)
          (λ ok. omega (arith, left_over-le max_frame_buf ctx a s h (omega arith) ok))
          (λ ok. omega (
            arith,
            left_over-le max_frame_buf ctx a s h (omega arith) ok,
            length-append p (a ++ b),
            length-append a b,
          ))
