-- ===== src/Gateway/WebSocket/Parse.antt =====
-- Frames written and read (internal/gateway/websocket.go and internal/connection/ws_frame.go).
use sgate.Prelude.{
  ℕ, suc, ◌+◌, ◌*◌, ◌/◌, ◌<◌, ◌≤◌, ◌≡◌, refl, sym, ap, ◌∙◌, true, false, [], ◌∷◌, ◌++◌,
  if◌then◌else◌, ltb, leb, length, take, drop, arith, inl, inr, Bool-cases, length-append,
  take_left, drop_left, ltb-false, append_assoc, drop-drop, ltb→lt, leb→le,
}
use sgate.Prelude.Bytes.{Bytes, byte, put_uint64, uint64_bytes}
use sgate.Connection.Frames.{ws_header, encode_ws_frame}
use sgate.Gateway.WebSocket.{
  frame, top_bit, low_seven, low_four, parse_payload, parse_web_socket_frame,
}

after_header :
    (x y : ℕ) (header rest : Bytes) → drop (2 + length header) ((x ∷ y ∷ header) ++ rest) ≡ rest
after_header x y header rest =
    sym (drop-drop (length header) 2 ((x ∷ y ∷ header) ++ rest)) ∙ drop_left header rest

-- What follows the length of an unmasked frame.
payload_plain :
    (cipher : Bytes → Bytes → Bytes) (x y : ℕ) (header p rest : Bytes) (max_frame_size : ℕ)
    → y < 128
    → length p ≤ max_frame_size
    → parse_payload cipher
        ((x ∷ y ∷ header) ++ (p ++ rest))
        max_frame_size
        (length p)
        (2 + length header)
      ≡ frame (low_four x) p (2 + length header + length p) (top_bit x) false
unfolding parse_payload
payload_plain cipher x y header p rest m s fits =
    let whole = (x ∷ y ∷ header) ++ (p ++ rest) in
    let plain : top_bit y ≡ false = ground arith in
    let size : length whole ≡ 2 + length header + length p + length rest =
      omega (arith, length-append (x ∷ y ∷ header) (p ++ rest), length-append p rest) in
    rw plain (
      rw
        (
          ltb-false m (length p) fits,
          ltb-false (length whole) (2 + length header) (omega (arith, size)),
          ltb-false (length whole) (2 + length header + length p) (omega (arith, size)),
          after_header x y header (p ++ rest),
          take_left p rest,
        )
        refl)

-- What follows the length of a masked frame: the mask, and the payload under it.
payload_masked :
    (cipher : Bytes → Bytes → Bytes) (x y : ℕ) (header mask sent rest : Bytes) (max_frame_size : ℕ)
    → 128 ≤ y
    → length mask ≡ 4
    → length sent ≤ max_frame_size
    → parse_payload cipher
        ((x ∷ y ∷ header) ++ (mask ++ (sent ++ rest)))
        max_frame_size
        (length sent)
        (2 + length header)
      ≡ frame (low_four x) (cipher sent mask) (2 + length header + 4 + length sent) (top_bit x) true
unfolding parse_payload
payload_masked cipher x y header mask sent rest m s four fits =
    let whole = (x ∷ y ∷ header) ++ (mask ++ (sent ++ rest)) in
    let set : top_bit y ≡ true = ground arith in
    let size : length whole ≡ 2 + length header + 4 + length sent + length rest = omega (
      arith,
      four,
      length-append (x ∷ y ∷ header) (mask ++ (sent ++ rest)),
      length-append mask (sent ++ rest),
      length-append sent rest,
    ) in
    let skip : drop (2 + length header + 4) whole ≡ sent ++ rest =
      sym (drop-drop 4 (2 + length header) whole)
      ∙ ap (drop 4) (after_header x y header (mask ++ (sent ++ rest)))
      ∙ ap (λ k. drop k (mask ++ (sent ++ rest))) (sym four)
      ∙ drop_left mask (sent ++ rest) in
    let mask_is : take 4 (drop (2 + length header) whole) ≡ mask =
      ap (take 4) (after_header x y header (mask ++ (sent ++ rest)))
      ∙ ap (λ k. take k (mask ++ (sent ++ rest))) (sym four)
      ∙ take_left mask (sent ++ rest) in
    rw set (
      rw
        (
          ltb-false m (length sent) fits,
          ltb-false (length whole) (2 + length header + 4) (omega (arith, size)),
          ltb-false (length whole) (2 + length header + 4 + length sent) (omega (arith, size)),
          mask_is,
          skip,
          take_left sent rest,
        )
        refl)

-- A length in the three forms that the second byte chooses between, with `flag` for the mask bit.
unfoldable pub frame_header : ℕ → ℕ → ℕ → Bytes
frame_header op_code flag n =
    if ltb n 126
    then op_code ∷ (flag + n) ∷ []
    else if leb n 65535
    then op_code ∷ (flag + 126) ∷ byte (n / 256) ∷ byte n ∷ []
    else op_code ∷ (flag + 127) ∷ put_uint64 n

-- The frame of a client: the mask bit is set, and the mask stands before the payload.
unfoldable pub client_frame : ℕ → Bytes → Bytes → Bytes
client_frame op_code mask sent = frame_header op_code 128 (length sent) ++ (mask ++ sent)

module _ (cipher : Bytes → Bytes → Bytes) (max_frame_size : ℕ) where
  short_form :
      (x y n : ℕ) (rest : Bytes)
      → low_seven y ≡ n
      → n < 126
      → parse_web_socket_frame cipher ((x ∷ y ∷ []) ++ rest) max_frame_size
        ≡ parse_payload cipher ((x ∷ y ∷ []) ++ rest) max_frame_size n 2
  unfolding parse_web_socket_frame
  short_form x y n rest h small = ground arith

  middle_form :
      (x y n : ℕ) (rest : Bytes)
      → low_seven y ≡ 126
      → n ≤ 65535
      → let header = x ∷ y ∷ byte (n / 256) ∷ byte n ∷ [] in
        parse_web_socket_frame cipher (header ++ rest) max_frame_size
        ≡ parse_payload cipher (header ++ rest) max_frame_size n 4
  unfolding parse_web_socket_frame
  middle_form x y n rest h small =
      let two_bytes : byte (n / 256) * 256 + byte n ≡ n = omega arith in
      rw h (
        rw
          (
            ltb-false (suc (suc (suc (suc (length rest))))) 2 (omega arith),
            ltb-false (suc (suc (suc (suc (length rest))))) 4 (omega arith),
            two_bytes,
          )
          refl)

  long_form :
      (x y n : ℕ) (rest : Bytes)
      → low_seven y ≡ 127
      → n < 18446744073709551616
      → parse_web_socket_frame cipher ((x ∷ y ∷ put_uint64 n) ++ rest) max_frame_size
        ≡ parse_payload cipher ((x ∷ y ∷ put_uint64 n) ++ rest) max_frame_size n 10
  unfolding parse_web_socket_frame put_uint64
  long_form x y n rest h small =
      let size = length ((x ∷ y ∷ put_uint64 n) ++ rest) in
      rw h (
        rw (ltb-false size 2 (omega arith), ltb-false size 10 (omega arith), uint64_bytes n small)
          refl)

  -- A frame that the gateway writes is read back: whatever follows it, reading finds the payload,
  -- the opcode and FIN of the first byte, no mask, and the size of the frame. The payload is at
  -- most the reader's limit and shorter than 2^64 bytes.
  pub parse-encode_ws_frame :
      (op_code : ℕ) (p rest : Bytes)
      → length p ≤ max_frame_size
      → length p < 18446744073709551616
      → parse_web_socket_frame cipher (encode_ws_frame op_code p ++ rest) max_frame_size
        ≡ frame (low_four op_code) p (length (encode_ws_frame op_code p)) (top_bit op_code) false
  unfolding encode_ws_frame ws_header put_uint64
  parse-encode_ws_frame op_code p rest fits small = elim (Bool-cases (ltb (length p) 126)) [
    | inl short ↦ rw short (
        short_form op_code (byte (length p)) (length p) (p ++ rest)
          (omega (arith, ltb→lt (length p) 126 short)) (ltb→lt (length p) 126 short)
        ∙ payload_plain cipher op_code (byte (length p)) [] p rest max_frame_size
            (omega (arith, ltb→lt (length p) 126 short)) fits
        ∙ ap (λ k. frame (low_four op_code) p k (top_bit op_code) false) (omega arith))
    | inr long ↦ elim (Bool-cases (leb (length p) 65535)) [
      | inl middle ↦
          rw (long, middle)
            (middle_form op_code 126 (length p) (p ++ rest) refl (leb→le (length p) 65535 middle)
              ∙ payload_plain cipher op_code 126 (byte (length p / 256) ∷ byte (length p) ∷ []) p
                  rest max_frame_size (omega arith) fits
              ∙ ap (λ k. frame (low_four op_code) p k (top_bit op_code) false) (omega arith))
      | inr huge ↦
          rw (long, huge)
            (long_form op_code 127 (length p) (p ++ rest) refl small
              ∙ payload_plain cipher op_code 127 (put_uint64 (length p)) p rest max_frame_size
                  (omega arith) fits
              ∙ ap (λ k. frame (low_four op_code) p k (top_bit op_code) false) (omega arith))
    ]
  ]

  -- A masked frame of a client is read back: reading finds the opcode and FIN of the first byte,
  -- the mask bit, the size of the frame, and the payload that unmasking gives. The mask has four
  -- bytes, and the payload is at most the reader's limit and shorter than 2^64 bytes.
  pub parse-client_frame :
      (op_code : ℕ) (mask sent rest : Bytes)
      → length mask ≡ 4
      → length sent ≤ max_frame_size
      → length sent < 18446744073709551616
      → parse_web_socket_frame cipher (client_frame op_code mask sent ++ rest) max_frame_size
        ≡ frame
            (low_four op_code)
            (cipher sent mask)
            (length (client_frame op_code mask sent))
            (top_bit op_code)
            true
  unfolding client_frame frame_header put_uint64
  parse-client_frame op_code mask sent rest four fits small =
      let n = length sent in
      let size : (k : ℕ) → k + length (mask ++ sent) ≡ k + 4 + n =
        λ k. omega (arith, four, length-append mask sent) in
      let assoc : (mask ++ sent) ++ rest ≡ mask ++ (sent ++ rest) = append_assoc mask sent rest in
      elim (Bool-cases (ltb n 126)) [
        | inl short ↦
            rw (short, assoc)
              (short_form op_code (128 + n) n (mask ++ (sent ++ rest))
                  (omega (arith, ltb→lt n 126 short)) (ltb→lt n 126 short)
                ∙ payload_masked cipher op_code (128 + n) [] mask sent rest max_frame_size
                    (omega arith) four fits
                ∙ ap (λ k. frame (low_four op_code) (cipher sent mask) k (top_bit op_code) true)
                    (omega (arith, size 2)))
        | inr long ↦ elim (Bool-cases (leb n 65535)) [
          | inl middle ↦
              rw (long, middle, assoc)
                (middle_form op_code 254 n (mask ++ (sent ++ rest)) refl (leb→le n 65535 middle)
                  ∙ payload_masked cipher op_code 254 (byte (n / 256) ∷ byte n ∷ []) mask sent rest
                      max_frame_size (omega arith) four fits
                  ∙ ap (λ k. frame (low_four op_code) (cipher sent mask) k (top_bit op_code) true)
                      (omega (arith, size 4)))
          | inr huge ↦
              rw (long, huge, assoc)
                (long_form op_code 255 n (mask ++ (sent ++ rest)) refl small
                  ∙ payload_masked cipher op_code 255 (put_uint64 n) mask sent rest max_frame_size
                      (omega arith) four fits
                  ∙ ap (λ k. frame (low_four op_code) (cipher sent mask) k (top_bit op_code) true)
                      (omega (arith, size 10)))
        ]
      ]
