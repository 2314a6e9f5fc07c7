-- ===== src/Gateway/WebSocket.antt =====
-- internal/gateway/websocket.go: reading frames and putting fragmented messages together.
-- `cipher payload mask` stands for the payload after ws.Cipher (gobwas/ws), which unmasks it in
-- place. Handling a message is a function on a state of its own that says whether it went well.
pub mod Parse
pub mod Fragments
use sgate.Prelude.{
  ℕ, zero, suc, ◌+◌, ◌-◌, ◌*◌, ◌/◌, ◌%◌, Bool, true, false, not, List, [], ◌∷◌, ◌++◌, if◌then◌else◌,
  ltb, leb, nat_beq, length, get_or, take, drop,
}
use sgate.Prelude.Bytes.{Bytes}

pub data Parsed : Type 0 where
  -- frameSize is 0: more bytes are needed.
  incomplete : Parsed
  -- The error, with the length.
  too_large : ℕ → Parsed
  -- The opcode, the payload, the frame's size, FIN and MASK.
  frame : ℕ → Bytes → ℕ → Bool → Bool → Parsed

-- The top bit of a byte, and its low seven and four bits.
abbrev pub top_bit : ℕ → Bool
top_bit b = leb 128 b

abbrev pub low_seven : ℕ → ℕ
low_seven b = b % 128

abbrev pub low_four : ℕ → ℕ
low_four b = b % 16

abbrev pub at : Bytes → ℕ → ℕ
at buffer i = get_or buffer i 0

-- From the length on: `frame_size` counts the bytes read so far.
unfoldable pub parse_payload : (Bytes → Bytes → Bytes) → Bytes → ℕ → ℕ → ℕ → Parsed
parse_payload cipher buffer max_frame_size len frame_size =
    let fin = top_bit (at buffer 0) in
    let op_code = low_four (at buffer 0) in
    let masked = top_bit (at buffer 1) in
    let start = if masked then frame_size + 4 else frame_size in
    let mask = take 4 (drop frame_size buffer) in
    let payload = take len (drop start buffer) in
    if ltb max_frame_size len
    then too_large len
    else if ltb (length buffer) start
    then incomplete
    else if ltb (length buffer) (start + len)
    then incomplete
    else frame op_code (if masked then cipher payload mask else payload) (start + len) fin masked

-- The 64-bit length after the code 127.
abbrev pub long_length : Bytes → ℕ
long_length buffer =
    at buffer 2 * 72057594037927936
    + at buffer 3 * 281474976710656
    + at buffer 4 * 1099511627776
    + at buffer 5 * 4294967296
    + at buffer 6 * 16777216
    + at buffer 7 * 65536
    + at buffer 8 * 256
    + at buffer 9

unfoldable pub parse_web_socket_frame : (Bytes → Bytes → Bytes) → Bytes → ℕ → Parsed
unfolding parse_payload
parse_web_socket_frame cipher buffer max_frame_size =
    if ltb (length buffer) 2
    then incomplete
    else if nat_beq (low_seven (at buffer 1)) 126
    then (if ltb (length buffer) 4
        then incomplete
        else parse_payload cipher buffer max_frame_size (at buffer 2 * 256 + at buffer 3) 4)
    else if nat_beq (low_seven (at buffer 1)) 127
    then (if ltb (length buffer) 10
        then incomplete
        else parse_payload cipher buffer max_frame_size (long_length buffer) 10)
    else parse_payload cipher buffer max_frame_size (low_seven (at buffer 1)) 2

-- The fields of a WebSocketConnection that reading uses, once the handshake is done.
pub record Reader : Type 0 where
  pub buffer : Bytes
  pub buf_off : ℕ
  pub frag_op : ℕ
  pub frag_buf : Bytes
  pub fragging : Bool

abbrev pub reader_pending : Reader → Bytes
reader_pending r = drop r.buf_off r.buffer

module _ {S : Type 0} (process : S → ℕ → Bytes → S × Bool) (max_frame_size : ℕ) where
  -- One masked frame: a continuation, a first fragment, or a whole message. False closes.
  unfoldable pub accept_frame : Reader → S → ℕ → Bytes → Bool → Reader × S × Bool
  accept_frame r s op_code payload fin =
      if nat_beq op_code 0
      then (if not r.fragging
          then (r, s, false)
          else if ltb max_frame_size (length r.frag_buf + length payload)
          then (r, s, false)
          else if fin
          then (let (s', good) = process s r.frag_op (r.frag_buf ++ payload) in
              (record r { frag_buf = []; fragging = false }, s', good))
          else (record r { frag_buf = r.frag_buf ++ payload }, s, true))
      else if not fin
      then (record r { fragging = true; frag_op = op_code; frag_buf = payload }, s, true)
      else let (s', good) = process s op_code payload in (r, s', good)

  unfoldable pub read_loop : (Bytes → Bytes → Bytes) → ℕ → Reader → S → Reader × S × Bool
  read_loop cipher zero r s = (r, s, true)
  read_loop cipher (suc fuel) r s =
      elim (parse_web_socket_frame cipher (reader_pending r) max_frame_size) [
        | incomplete ↦ (r, s, true)
        | too_large n ↦ (r, s, false)
        | frame op_code payload size fin masked ↦
            let (r', s', good) = accept_frame r s op_code payload fin in
            let next = record r' { buf_off = r'.buf_off + size } in
            let rest = read_loop cipher fuel next s' in
            if not masked
            then (r, s, false)
            else if not good
            then (r', s', false)
            else if nat_beq next.buf_off (length next.buffer)
            then (record next { buffer = []; buf_off = 0 }, s', true)
            else rest
      ]

  -- handleWebSocketMessage of an open connection. The result says whether to go on. A frame has at
  -- least two bytes, so fuel beyond the buffer's length is never used up.
  unfoldable pub handle_message :
      (Bytes → Bytes → Bytes) → ℕ → Reader → Bytes → S → Reader × S × Bool
  handle_message cipher max_buffer_size r incoming s =
      let moved = if ltb 0 r.buf_off then reader_pending r else r.buffer in
      let compacted = record r { buffer = moved; buf_off = 0 } in
      let grown = record r { buffer = moved ++ incoming; buf_off = 0 } in
      if ltb max_buffer_size (length moved + length incoming)
      then (record compacted { buffer = [] }, s, false)
      else read_loop cipher (suc (length grown.buffer)) grown s
