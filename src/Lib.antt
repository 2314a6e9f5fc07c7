-- ===== src/Lib.antt =====
-- A model of sgate, a game gateway in Go, and what is proved of it. The gateway keeps client
-- connections over TCP and WebSocket (internal/gateway, internal/connection), reads their bytes
-- into messages, protects itself and its back ends (internal/security, internal/traffic), and
-- passes messages on to logic servers, which dial in with streams (internal/backend).
--
-- What models what:
--   Security/Breaker is internal/security/circuit.go: Allow, RecordSuccess, RecordFailure and Reset
--     on a CircuitBreaker; Breaker/Registry is its CircuitBreakerManager.
--   Security/RateLimit is internal/security/ratelimit.go: Bucket is the TokenBucket with tryConsume
--     and updateParams, Limiter the RateLimiter and its shards, Limiter/Settings the changes of
--     settings, Limiter/Table the requests (Allow, AllowMulti, peek) and the upkeep (Clear, cleanup).
--   Security/Whitelist is internal/security/whitelist.go.
--   Gateway/TcpFrames is ConnContext and feedFrames of internal/gateway/handlers.go; Scan says the
--     same of the pending bytes alone.
--   Gateway/WebSocket is parseWebSocketFrame and the read loop of handleWebSocketMessage
--     (internal/gateway/websocket.go), with the fragments put together in WebSocket/Fragments.
--   Connection/Frames is EncodeWSFrame (internal/connection/ws_frame.go) and the write coalescing of
--     internal/connection/connection.go.
--   Connection/Manager is the ConnectionManager of internal/connection/manager.go, with the groups of
--     group.go in Manager/Groups and the sequences of calls in Manager/Calls; Manager/Opens is how
--     OnOpen of internal/gateway/handlers.go asks for the limit before it adds a connection.
--   Connection/ShardedMap is internal/connection/sharded_map.go, and Connection/MsgRate the message
--     limit of a connection (connection.go, CheckAndIncrementMsgRate).
--   Gateway/Maintenance is internal/gateway/maintenance.go: the marks, and what they concern.
--   Gateway/BatchValidate is the sweep of internal/gateway/batch_validate.go.
--   Gateway/Pipeline is MessagePipeline.Process of internal/gateway/pipeline.go over the models of the
--     components that it calls: State is what it reads and changes, Guards has its stages, with
--     isPreAuthCommand and getOrCreateBreaker of handlers.go and applyForwardFilters of filter.go.
--   Gateway/Workers is the PipelineWorkerPool of internal/gateway/pipeline.go.
--   Gateway/Integrity is internal/gateway/integrity.go, and Security/Waf is Inspect of
--     internal/security/waf.go.
--   Gateway/Login is internal/gateway/login.go with the slots of gateway.go: handleLoginGate and
--     finishLoginGate. Login/Ws is a login over a WebSocket (internal/gateway/websocket.go). Login/Bound
--     and Login/Displaced say what the end of a login does to the connections, Login/Started and
--     Login/Slots how slots are taken.
--   Security/Jwt is internal/security/jwt.go, with revokeConnJWT of internal/gateway/admin.go.
--   Backend/Queue is the StreamMessageQueue of internal/backend/client.go, with its flush.
--   Backend/Client is the LogicClient of internal/backend/client.go with the shards of stream.go, and
--     Backend/Pool the LogicClientPool of pool.go with the metadata of internal/routes/logicstream.go.
--   Types/StreamData is the message that all of these pass on.
--   Types/Filters is the FilterChain of internal/types/types.go, and the run of its four phases in
--     applyForwardFilters (internal/gateway/filter.go); Filters/Passes is a description of a run by what
--     each filter says.
--   Traffic/Degradation is internal/traffic/degradation.go, and Traffic/Canary canary.go beside it.
--   Prelude has what these share: byte strings, association lists for Go's maps, integers.
--   Each Scenarios module applies the theorems to concrete values.
--
-- How: a call on shared state is a function from the state to the state and the result, run alone,
-- as under the source's locks; a history is a list of calls. A clock reading is an argument of the
-- call. Integers of 32 and 64 bits wrap around where the source's arithmetic can reach their ends.
-- Maps are association lists in the order of insertion, where Go has none. What stands outside the
-- repository is a parameter: the hash of hash/maphash, ws.Cipher of gobwas/ws, netutil.Host and
-- uhash.FNV1a32 of streasure/util, the answers of the login server. So are base64, JSON and the
-- HMAC of tokens, the zones of servers in Gateway/Maintenance, the regular expressions of the
-- firewall, the calls of LogicClientProvider in the pipeline, how each attempt of a flush ends, the
-- filters of a chain, the callbacks that handle frames and messages, and the socket that takes a
-- write or refuses it.
--
-- Fuel: feed_loop, read_loop and reframe_from take the length of their buffer and one more. Each
-- round consumes at least four bytes (two in a WebSocket frame), so that the fuel is never used up.
-- sweep_from likewise takes one more than the number of sessions, and each batch has at least one.
-- flush_loop takes 101 rounds for each message and 101 more: a round that fails is one of at most
-- 100 in a row, and any other takes a message off the queue.
--
-- Not modelled: interleavings inside one call other than those of Manager/Opens, goroutines and
-- timers, logging and metrics, the tries of a forwarded login, protobuf, gRPC and HTTP, and the
-- parts of the gateway that only wire components together.
pub mod Prelude
pub mod Security
pub mod Gateway
pub mod Connection
pub mod Types
pub mod Traffic
pub mod Backend
