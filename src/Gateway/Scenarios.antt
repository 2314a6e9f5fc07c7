-- ===== src/Gateway/Scenarios.antt =====
-- The theorems on internal/gateway, applied to concrete streams and frames.
use sgate.Prelude.{
  String, not, ◌&&◌, ◌||◌, ◌==◌, string_eq, ℕ, ◌+◌, ◌≡◌, refl, Bool, true, false, List, [], ◌∷◌,
  ◌++◌, none, if◌then◌else◌, length, arith,
}
use sgate.Connection.Manager.{Conn}
use sgate.Prelude.Bytes.{Bytes, put_uint32}
use sgate.Connection.Frames.{encode_ws_frame, binary_frame}
use sgate.Gateway.TcpFrames.{no_frames, feed_frames}
use sgate.Gateway.TcpFrames.Scan.{view}
use sgate.Gateway.TcpFrames.Chunks.{feed_frames-append}
use sgate.Gateway.TcpFrames.Streams.{stream_of, deliver, delivered, feed_frames-stream_of}
use sgate.Gateway.WebSocket.{parse_web_socket_frame, frame, low_four, top_bit, Reader}
use sgate.Gateway.WebSocket.Parse.{client_frame, parse-encode_ws_frame, parse-client_frame}
use sgate.Gateway.WebSocket.Fragments.{
  fragments, joined, accept_frames, handled, accept_frames-fragments,
}
use sgate.Gateway.Maintenance.{
  MaintenanceState, new_maintenance_state, enable, disable, server_marked, zone_marked,
  is_maintenance_target, matches,
}
use sgate.Gateway.Maintenance.Targets.{enable-matches, disable-marks}
use sgate.Prelude.Maps.{Map}
use sgate.Gateway.BatchValidate.{BatchSweepItem, collect, run_batch_validate_sweep}
use sgate.Gateway.BatchValidate.Batches.{
  invalid, answers, no_answer, sweep-invalid, sweep_unanswered,
}

-- A callback that collects the frames, and goes on.
abbrev gather : List Bytes → Bytes → List Bytes × Bool
gather seen f = (seen ++ (f ∷ []), true)

feed_frames-append_example :
    let (ctx', s', ok) = feed_frames gather 100 1000 no_frames (0 ∷ 0 ∷ 0 ∷ []) [] in
    view (feed_frames gather 100 1000 no_frames ((0 ∷ 0 ∷ 0 ∷ []) ++ (2 ∷ 7 ∷ 8 ∷ [])) [])
    ≡ (if ok then view (feed_frames gather 100 1000 ctx' (2 ∷ 7 ∷ 8 ∷ []) s') else (none, s'))
feed_frames-append_example =
    feed_frames-append gather 100 1000 no_frames (0 ∷ 0 ∷ 0 ∷ []) (2 ∷ 7 ∷ 8 ∷ []) [] (omega arith)
      (omega arith)

abbrev two_frames : List Bytes
two_frames = (7 ∷ 8 ∷ []) ∷ (9 ∷ []) ∷ []

feed_frames-stream_of_example :
    view (feed_frames gather 100 1000 no_frames (stream_of two_frames) [])
    ≡ delivered (deliver gather [] two_frames)
feed_frames-stream_of_example =
    feed_frames-stream_of gather 100 (omega arith) 1000 two_frames [] (ground arith)
      (unfold stream_of in unfold put_uint32 in omega arith)

-- A cipher that adds the mask's first byte to each byte.
abbrev shift : Bytes → Bytes → Bytes
shift [] mask = []
shift (b ∷ bs) [] = b ∷ bs
shift (b ∷ bs) (m ∷ ms) = (b + m) ∷ bs

parse-encode_ws_frame_example :
    parse_web_socket_frame shift (encode_ws_frame binary_frame (1 ∷ 2 ∷ 3 ∷ []) ++ (9 ∷ [])) 100
    ≡ frame
        (low_four binary_frame)
        (1 ∷ 2 ∷ 3 ∷ [])
        (length (encode_ws_frame binary_frame (1 ∷ 2 ∷ 3 ∷ [])))
        (top_bit binary_frame)
        false
parse-encode_ws_frame_example =
    parse-encode_ws_frame shift 100 binary_frame (1 ∷ 2 ∷ 3 ∷ []) (9 ∷ []) (omega arith)
      (omega arith)

parse-client_frame_example :
    parse_web_socket_frame shift
      (client_frame binary_frame (1 ∷ 1 ∷ 1 ∷ 1 ∷ []) (1 ∷ 2 ∷ 3 ∷ []) ++ (9 ∷ []))
      100
    ≡ frame
        (low_four binary_frame)
        (shift (1 ∷ 2 ∷ 3 ∷ []) (1 ∷ 1 ∷ 1 ∷ 1 ∷ []))
        (length (client_frame binary_frame (1 ∷ 1 ∷ 1 ∷ 1 ∷ []) (1 ∷ 2 ∷ 3 ∷ [])))
        (top_bit binary_frame)
        true
parse-client_frame_example =
    parse-client_frame shift 100 binary_frame (1 ∷ 1 ∷ 1 ∷ 1 ∷ []) (1 ∷ 2 ∷ 3 ∷ []) (9 ∷ []) refl
      (omega arith) (omega arith)

-- Messages are collected with their opcodes.
abbrev keep_message : List (ℕ × Bytes) → ℕ → Bytes → List (ℕ × Bytes) × Bool
keep_message seen op_code m = (seen ++ ((op_code, m) ∷ []), true)

abbrev idle_reader : Reader
idle_reader = record { buffer = []; buf_off = 0; frag_op = 0; frag_buf = []; fragging = false }

accept_frames-fragments_example :
    accept_frames keep_message 100 idle_reader [] (fragments 2 (1 ∷ []) (2 ∷ []) ((3 ∷ []) ∷ []))
    ≡ handled keep_message 100 idle_reader 2
        (keep_message [] 2 (joined ((1 ∷ []) ∷ (2 ∷ []) ∷ (3 ∷ []) ∷ [])))
accept_frames-fragments_example =
    accept_frames-fragments keep_message 100 idle_reader [] 2 (1 ∷ []) (2 ∷ []) ((3 ∷ []) ∷ []) refl
      (unfold joined in ground arith)

abbrev one_zone : String → String
one_zone server_id = "zone1"

abbrev on_server : String → Conn
on_server server_id = record {
  user_uuid = "u";
  server_id = server_id;
  account_id = "";
  login_key = "";
  remote_addr = "";
}

enable-matches_example :
    is_maintenance_target one_zone "zone2"
      (enable new_maintenance_state "" "zone1" "update")
      (on_server "s1").server_id
    ≡ (is_maintenance_target one_zone "zone2" new_maintenance_state (on_server "s1").server_id
        || matches one_zone "zone2" "" "zone1" (on_server "s1"))
enable-matches_example =
    enable-matches one_zone "zone2" new_maintenance_state "" "zone1" "update" (on_server "s1")

abbrev s1 : String
s1 = "s1"

abbrev s2 : String
s2 = "s2"

abbrev no_zone : String
no_zone = ""

abbrev s1_marked : MaintenanceState
s1_marked = record { servers = (s1, "update") ∷ []; zones = [] }

disable-marks_example :
    let (st', removed) = disable s1_marked s1 no_zone in
    (removed
      ≡ (if s1 == no_zone then zone_marked s1_marked no_zone else server_marked s1_marked s1))
    × (server_marked st' s2
        ≡ (server_marked s1_marked s2 && not (not (s1 == no_zone) && (s1 == s2))))
    × (zone_marked st' s2 ≡ (zone_marked s1_marked s2 && not ((s1 == no_zone) && (no_zone == s2))))
disable-marks_example = disable-marks s1_marked s1 no_zone s2

abbrev logged_in : String → Conn
logged_in account_id = record {
  user_uuid = "u";
  server_id = "s1";
  account_id = account_id;
  login_key = "k";
  remote_addr = "";
}

abbrev sessions : Map String Conn
sessions = ("c1", logged_in "a1") ∷ ("c2", logged_in "a2") ∷ ("c3", logged_in "") ∷ []

abbrev account_2_banned : BatchSweepItem → Bool
account_2_banned it = not (it.account_id == "a2")

abbrev same_session : String → String × String
same_session id = (if id == "c1" then "a1" else "a2", "k")

sweep-invalid_example :
    run_batch_validate_sweep (answers account_2_banned same_session) same_session 1 sessions
    ≡ record {
      checked = length (collect sessions);
      kicked = invalid account_2_banned same_session (collect sessions);
      rpc_failed = 0;
    }
sweep-invalid_example = sweep-invalid account_2_banned same_session 1 sessions (omega arith)

sweep_unanswered_example :
    run_batch_validate_sweep no_answer same_session 1 sessions
    ≡ record { checked = 0; kicked = []; rpc_failed = length (collect sessions) }
sweep_unanswered_example = sweep_unanswered same_session 1 sessions (omega arith)
