-- ===== src/Lib.antt =====
-- Verification library of the AegisPulse gateway.
--
-- AegisPulse is an HTTP gateway. A request passes the CORS middleware, the authentication of its API
-- key, the check of its signature, a rate limiter with a soft and a hard limit, a simulated delay, a
-- circuit breaker, and the reverse proxy; its answer is cached, and the cache answers while the
-- upstream fails. An administration API freezes keys and bursts, cuts the upstream off and retries
-- webhooks. Every function that mutates an object is a function from a state to a state; a mutex
-- makes each method one step. What is read of the clock or of the random generator is an argument.
--
-- The files and the code that they model, by paths from the repository's root:
--
--   Proxy          internal/proxy/proxy.go. Recorder: ResponseRecorder, serveCachedResponse,
--                  respondJSON. Jitter: ToggleJitter, IsJitterActive and step 7. Pipeline: steps 7
--                  to 9 of serveInternal. Admission: steps 4 to 6. Admin: handleAdminAPI, and
--                  serveInternal itself. Defs: the state GatewayProxy, and the record World of what
--                  the proxy calls and is not modelled. `forwarded` says that the reverse proxy was
--                  called. Guards, Keyed, Routes, Outcomes and Delays prove.
--   RateLimit      internal/ratelimit/limiter.go. Result: RateLimitResult. Window/Defs:
--                  InMemoryLimiter, whose binary search is sort.Search. Interface: Limiter.
--                  Window/Reference is a limiter that never prunes, for the refinement. Redis:
--                  RedisLimiter. Script: the Lua script of lua.go, over the commands of Redis that it
--                  calls (Script/Commands), each of which gets the second of the server's clock.
--                  Bucket: token_bucket.go. Reports: GetAllOverages of the three.
--   Crypto         internal/crypto. Signature is hmac.go: GenerateSignature and VerifySignature, with
--                  HMAC a parameter. Envelope is envelope.go, with AES, GCM, SHA-256 and base64
--                  parameters.
--   Cache          internal/cache/cache.go. Breaker: CircuitBreaker. Store: SmartCache.
--   Storage        internal/storage: Redis is RedisClient of redis.go, Keys is PostgresRepo of
--                  postgres.go. The Redis server and the statements of the database are parameters,
--                  of which nothing is assumed.
--   Config         config/config.go: the structures, the defaults, loading, the overrides by the
--                  environment, SetJitter, and the loop of Watch over its events.
--   Webhook        internal/webhook: Adapters is adapters.go. Delivery and Engine are engine.go: the
--                  channel, the fan-out and the attempts; the end of a delivery, the workers and the
--                  poller. Dlq is dlq.go, Dlq/Stream its copy in a Redis stream.
--   Middleware     internal/middleware/cors.go, and ServeHTTP of internal/proxy/proxy.go.
--   Metrics        internal/metrics/metrics.go, over an abstract registry. Snapshot: GetSnapshot.
--   Tui            internal/tui, over the state of Proxy. Modal is modals.go, Model and Update are
--                  app.go, View and Headless its screen and its reports, Look is theme.go with
--                  RenderModal, Render is sparkline.go, Sparring is chaos.go and the drills of
--                  cmd/tui/main.go. Remote is the dashboard of cmd/tui/main.go, with what it posts,
--                  Page its poll of the page of metrics, RemoteView its screen. Polls, Screens and
--                  Shown prove.
--   Chaos          cmd/chaos/main.go. Drills and Demo: its three modes, over any client. Target: the
--                  gateway as that client. KillDrill and Replays prove.
--   Mocks          cmd/mockupstream/main.go and cmd/mockwebhook/main.go. Faults and Deliveries prove.
--   Launch         cmd/gateway/main.go. Start: the parts of a gateway, NewGatewayProxy of
--                  internal/proxy/proxy.go, and the reports of the memory of Redis. Exit: the calls at
--                  the end of main, its deferred calls, and Stop of internal/webhook/engine.go.
--   Http, Clock    what the program uses of net/http's Header and of package time.
--   Base           numbers, `int64` arithmetic with its wrap-around, maps, strings, decimals.
--   Examples       each theorem at a concrete input.
--
-- Bounds and fuel. An `int64` is an integer, and each operation on it wraps at 2^64 (Base/Int). The
-- only loop on fuel is that of sort.Search: it has one unit more than the length of the list, and the
-- interval that is left shrinks with every round. The delivery loop is structural in the rounds that
-- are left. A Go map is an association list whose order stands for the order of a range over the map.
--
-- A `float64` is a type with the operations that the code uses and, where a theorem needs it, a record
-- of hypotheses on their order; an instance in Examples meets each such record.
--
-- Not modelled: the pages of internal/demo, which are constant texts; the flags, the
-- log and the listening server of the commands; IsTTY, and of a screen the code point that picks
-- the coloured form of an emoji. A deferred call is modelled for the end of main only. Nothing is
-- proved of runs of the Redis limiter in which only some calls are answered, beyond the single call.
-- Encoding and decoding of JSON and YAML, HMAC-SHA256, AES-GCM, SHA-256, base64, the Redis server,
-- Prometheus, lipgloss, the parser of numbers and the reverse proxy are parameters. Concurrent
-- requests are not interleaved within a step of the proxy, and goroutines of the webhook engine and of
-- the drills are steps, one after the other. A number of the Lua script is an integer.
pub mod Base
pub mod Http
pub mod Crypto
pub mod Clock
pub mod Config
pub mod RateLimit
pub mod Cache
pub mod Chaos
pub mod Launch
pub mod Storage
pub mod Webhook
pub mod Metrics
pub mod Proxy
pub mod Tui
pub mod Middleware
pub mod Examples
pub mod Mocks
