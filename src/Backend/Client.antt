-- ===== src/Backend/Client.antt =====
-- internal/backend/client.go and stream.go: a logic server's client with its shards, each a stream
-- that the logic server has opened and the channel of messages to it. Messages `M` are only moved;
-- `hash` stands for uhash.FNV1a32 of a message's session. A stream is known by a number. The calls
-- are taken one after the other.
pub mod Attached
use sgate.Prelude.{
  ℕ, zero, suc, ◌+◌, ◌-◌, ◌*◌, ◌%◌, String, Bool, true, false, not, ◌&&◌, List, [], ◌∷◌, ◌++◌,
  Option, none, some, if◌then◌else◌, leb, ltb, nat_beq, length, set, replicate, take, drop, map,
}
use sgate.Prelude.Int.{ℤ, pos, negsuc, ◌+ℤ◌, ◌-ℤ◌, ltb_ℤ, leb_ℤ}
use sgate.Backend.Queue.{
  QueuePolicy, LogicError, err_not_connected, err_connection_closing, err_send_timeout,
  StreamMessageQueue, new_stream_message_queue, close_queue, enqueue, Attempt, client_closing,
  sent_directly, not_sent,
}

pub data LogicConnectionState : Type 0 where
  logic_state_disconnected logic_state_connected : LogicConnectionState

abbrev pub is_connected_state : LogicConnectionState → Bool
is_connected_state logic_state_connected = true
is_connected_state logic_state_disconnected = false

pub record StreamShard (M : Type 0) : Type 0 where
  pub stream : Option ℕ
  pub send_ch : List M
  pub closed : Bool

pub record LogicClient (M : Type 0) : Type 0 where
  pub server_id : String
  pub address : String
  pub state : LogicConnectionState
  pub shards : List (StreamShard M)
  pub send_channel_size : ℕ
  pub message_queue : StreamMessageQueue M
  pub closing : Bool
  pub total_shards : ℕ
  pub attached : ℤ

abbrev pub default_send_channel_size : ℕ
default_send_channel_size = 65536

-- How a send that found its channel full ends: there is room again, in the shard as it then stands,
-- the shard is stopped, or the timer fires.
pub data SendWait (M : Type 0) : Type 0 where
  room_made : StreamShard M → SendWait M
  stop_seen : SendWait M
  timer_fired : SendWait M

abbrev pub is_stream : Option ℕ → ℕ → Bool
is_stream none stream = false
is_stream (some bound) stream = nat_beq bound stream

abbrev pub channel_size : ℕ → ℕ
channel_size n = if nat_beq n 0 then default_send_channel_size else n

module _ {M : Type 0} where
  abbrev pub new_shard : StreamShard M
  new_shard = record { stream = none; send_ch = []; closed = false }

  -- NewStreamManager, with `cpus` for runtime.NumCPU().
  unfoldable pub new_shards : ℕ → ℕ → List (StreamShard M)
  new_shards cpus zero = replicate (cpus * 4) new_shard
  new_shards cpus (suc shard_count) = replicate (suc shard_count) new_shard

  unfoldable pub new_logic_client : ℕ → ℤ → QueuePolicy → LogicClient M
  new_logic_client cpus queue_max policy = record {
    server_id = "";
    address = "";
    state = logic_state_disconnected;
    shards = new_shards cpus 0;
    send_channel_size = default_send_channel_size;
    message_queue = new_stream_message_queue queue_max policy;
    closing = false;
    total_shards = 0;
    attached = pos 0;
  }

  -- The sending loops that it starts are `send_round` of each shard.
  unfoldable pub init_accepted : ℕ → ℕ → LogicClient M → ℕ → LogicClient M
  init_accepted cpus channel lc total = record lc {
    shards = new_shards cpus total;
    send_channel_size = channel_size channel;
    total_shards = total;
  }

  abbrev pub shard_at : List (StreamShard M) → ℕ → Option (StreamShard M)
  shard_at [] i = none
  shard_at (sh ∷ shs) zero = some sh
  shard_at (sh ∷ shs) (suc i) = shard_at shs i

  abbrev pub put_shard : LogicClient M → ℕ → StreamShard M → LogicClient M
  put_shard lc i sh = record lc { shards = set lc.shards i sh }

  -- The end of attachShard: the client is connected once every shard has a stream. The result says
  -- whether a flush of the queue is started.
  unfoldable pub connect_if_full : LogicClient M → LogicClient M × Bool
  connect_if_full lc =
      if leb_ℤ (pos lc.total_shards) lc.attached && not (is_connected_state lc.state)
      then (record lc { state = logic_state_connected }, true)
      else (lc, false)

  -- A stream that replaces another leaves the count as it is.
  unfoldable pub bind : LogicClient M → ℕ → StreamShard M → ℕ → LogicClient M
  bind lc idx sh stream =
      let bound = put_shard lc idx (record sh { stream = some stream }) in
      elim sh.stream [ none ↦ record bound { attached = lc.attached +ℤ pos 1 } | some prev ↦ bound ]

  -- A negative index is refused as one out of range is, and is not modelled.
  unfoldable pub attach_shard : LogicClient M → ℕ → ℕ → LogicClient M × Option LogicError × Bool
  attach_shard lc idx stream =
      if lc.closing
      then (lc, some err_connection_closing, false)
      else (elim (shard_at lc.shards idx) [
        | none ↦ (lc, some err_not_connected, false)
        | some sh ↦
            let (connected, flushes) = connect_if_full (bind lc idx sh stream) in
            (connected, none, flushes)
      ])

  unfoldable pub lose_one : LogicClient M → LogicClient M
  lose_one lc =
      let n = lc.attached -ℤ pos 1 in
      let counted = record lc { attached = n } in
      if ltb_ℤ n (pos 0)
      then counted
      else if ltb_ℤ n (pos lc.total_shards) && is_connected_state lc.state
      then record counted { state = logic_state_disconnected }
      else counted

  unfoldable pub detach_shard : LogicClient M → ℕ → ℕ → LogicClient M
  detach_shard lc idx stream = elim (shard_at lc.shards idx) [
    | none ↦ lc
    | some sh ↦
        if is_stream sh.stream stream
        then (let unbound = put_shard lc idx (record sh { stream = none }) in
            if lc.closing then unbound else lose_one unbound)
        else lc
  ]

  -- Stopping a shard throws away what is left in its channel.
  abbrev pub stop_shard : StreamShard M → StreamShard M
  stop_shard sh = record sh { closed = true; send_ch = [] }

  unfoldable pub close_client : LogicClient M → LogicClient M
  close_client lc = if lc.closing then lc else record lc {
    closing = true;
    shards = map stop_shard lc.shards;
    state = logic_state_disconnected;
    message_queue = close_queue lc.message_queue;
  }

  -- SendMessage of a shard.
  abbrev pub push_channel : StreamShard M → M → StreamShard M × Option LogicError
  push_channel sh msg =
      let pushed = record sh { send_ch = sh.send_ch ++ (msg ∷ []) } in
      if sh.closed then (pushed, some err_not_connected) else (pushed, none)

  unfoldable pub send_to_shard :
      ℕ → (StreamShard M → SendWait M) → StreamShard M → M → StreamShard M × Option LogicError
  send_to_shard capacity wait sh msg =
      if sh.closed
      then (sh, some err_not_connected)
      else if ltb (length sh.send_ch) capacity
      then push_channel sh msg
      else (elim (wait sh) [
        | room_made sh' ↦ push_channel sh' msg
        | stop_seen ↦ (sh, some err_not_connected)
        | timer_fired ↦ (sh, some err_send_timeout)
      ])

  module _ (hash : M → ℕ) (wait : StreamShard M → SendWait M) where
    abbrev pub get_shard : LogicClient M → M → ℕ
    get_shard lc msg = hash msg % length lc.shards

    unfoldable pub send_by_shard : LogicClient M → M → LogicClient M × Option LogicError
    send_by_shard lc msg =
        let i = get_shard lc msg in
        elim (shard_at lc.shards i) [
          | none ↦ (lc, some err_not_connected)
          | some sh ↦
              let (sh', err) = send_to_shard lc.send_channel_size wait sh msg in
              (put_shard lc i sh', err)
        ]

    unfoldable pub send_message_direct : LogicClient M → M → LogicClient M × Option LogicError
    send_message_direct lc msg =
        if lc.closing
        then (lc, some err_connection_closing)
        else if is_connected_state lc.state
        then send_by_shard lc msg
        else (lc, some err_not_connected)

    -- What an attempt of a flush to this client comes to.
    unfoldable pub flush_attempt_of : LogicClient M → M → Attempt
    flush_attempt_of lc msg =
        if lc.closing
        then client_closing
        else if is_connected_state lc.state
        then (elim (send_message_direct lc msg).1 [ none ↦ sent_directly | some err ↦ not_sent ])
        else not_sent

    module _ (pressed : ℕ → ℕ → Bool)
        (wakes : List (StreamMessageQueue M → StreamMessageQueue M)) where
      unfoldable pub enqueue_message : LogicClient M → M → LogicClient M × Option LogicError
      enqueue_message lc msg =
          let (mq, err) = enqueue pressed wakes lc.message_queue msg in
          (record lc { message_queue = mq }, err)

      -- A message whose shard does not take it waits in the queue, and a flush is started.
      unfoldable pub send_message : LogicClient M → M → LogicClient M × Option LogicError
      send_message lc msg =
          if is_connected_state lc.state
          then (let (lc', err) = send_by_shard lc msg in
              elim err [ none ↦ (lc', none) | some e ↦ enqueue_message lc' msg ])
          else if lc.closing
          then (lc, some err_connection_closing)
          else enqueue_message lc msg
