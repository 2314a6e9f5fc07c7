-- ===== src/Gateway/WebSocket/Fragments.antt =====
-- A message that is sent in fragments (internal/gateway/websocket.go).
use sgate.Prelude.{
  ℕ, ◌+◌, ◌≤◌, ◌≡◌, refl, ap, ◌∙◌, Bool, true, false, List, [], ◌∷◌, ◌++◌, nat_beq, length, arith,
  length-append, ltb-false, append_assoc, append-nil, inl, inr, Bool-cases, if◌then◌else◌,
}
use sgate.Prelude.Bytes.{Bytes}
use sgate.Gateway.WebSocket.{Reader, accept_frame}

-- The frames after the first: only the last one has FIN.
unfoldable pub continuations : Bytes → List Bytes → List (ℕ × Bytes × Bool)
continuations q [] = (0, q, true) ∷ []
continuations q (q' ∷ qs) = (0, q, false) ∷ continuations q' qs

unfoldable pub fragments : ℕ → Bytes → Bytes → List Bytes → List (ℕ × Bytes × Bool)
fragments op_code p q qs = (op_code, p, false) ∷ continuations q qs

unfoldable pub joined : List Bytes → Bytes
joined [] = []
joined (p ∷ ps) = p ++ joined ps

module _ {S : Type 0} (process : S → ℕ → Bytes → S × Bool) (max_frame_size : ℕ) where
  -- Frame after frame, as long as none closes the connection.
  unfoldable pub accept_frames : Reader → S → List (ℕ × Bytes × Bool) → Reader × S × Bool
  accept_frames r s [] = (r, s, true)
  accept_frames r s ((op_code, payload, fin) ∷ fs) =
      let (r', s', good) = accept_frame process max_frame_size r s op_code payload fin in
      let rest = accept_frames r' s' fs in if good then rest else (r', s', false)

  -- What handling a whole message leaves of the reader.
  unfoldable pub handled : Reader → ℕ → S × Bool → Reader × S × Bool
  handled r op_code (s, good) =
      (record r { frag_op = op_code; frag_buf = []; fragging = false }, s, good)

  continued :
      (r : Reader) (s : S) (q : Bytes) (qs : List Bytes)
      → r.fragging ≡ true
      → length r.frag_buf + length (joined (q ∷ qs)) ≤ max_frame_size
      → accept_frames r s (continuations q qs)
        ≡ handled r r.frag_op (process s r.frag_op (r.frag_buf ++ joined (q ∷ qs)))
  unfolding accept_frames accept_frame continuations joined handled
  continued r s q [] on room =
      rw
        (
          on,
          append-nil q,
          ltb-false max_frame_size (length r.frag_buf + length q)
              (omega (arith, length-append q [])),
        )
        (elim (Bool-cases (process s r.frag_op (r.frag_buf ++ q)).1) [
          | inl e ↦ rw e refl
          | inr e ↦ rw e refl
        ])
  continued r s q (q' ∷ qs) on room =
      let more = record r { frag_buf = r.frag_buf ++ q; fragging = true } in
      rw
        (
          on,
          ltb-false max_frame_size (length r.frag_buf + length q)
              (omega (arith, length-append q (joined (q' ∷ qs)))),
        )
        (continued more s q' qs refl
            (omega (arith, length-append q (joined (q' ∷ qs)), length-append r.frag_buf q))
          ∙ ap (λ m. handled r r.frag_op (process s r.frag_op m))
              (append_assoc r.frag_buf q (joined (q' ∷ qs))))

  -- The fragments of a message, a first one with the message's opcode and then continuations of
  -- which only the last has FIN, together within the limit, are handled as one message that is
  -- their concatenation; no fragments are pending afterwards.
  pub accept_frames-fragments :
      (r : Reader) (s : S) (op_code : ℕ) (p q : Bytes) (qs : List Bytes)
      → nat_beq op_code 0 ≡ false
      → length (joined (p ∷ q ∷ qs)) ≤ max_frame_size
      → accept_frames r s (fragments op_code p q qs)
        ≡ handled r op_code (process s op_code (joined (p ∷ q ∷ qs)))
  unfolding fragments accept_frames accept_frame joined handled
  accept_frames-fragments r s op_code p q qs whole room = rw whole (
      continued (record r { fragging = true; frag_op = op_code; frag_buf = p }) s q qs refl
        (omega (arith, length-append p (joined (q ∷ qs)))))
