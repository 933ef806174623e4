-- ===== src/Lib.antt =====
-- SubShare-Go: a server that hands out VPN subscriptions. Administrators manage users, keys and
-- sources; a user redeems an activation code for a subscription identity, and clients then fetch
-- the subscription, each from a device that is registered. The library models the decisions of the
-- Go program as functions and its database transactions as functions on the rows they touch.
--
-- The parts, and the code that each is about:
-- - Middleware: internal/middleware/middleware.go. `RateLimiter` is the limiter with its eviction
--   and clean-up (`allow` is Allow, `evict` and `sweep` evictLocked, `cleanup` one tick of cleanup);
--   `ClientIp` finds the address that the limiter counts by (`client_ip`, `walk`); `LogPath` is what
--   reaches the log (sanitizeLogPath, validRequestID).
-- - Model: internal/model/model.go. `Vocabulary` has the accepted values of each status and kind and
--   their normalization, `UserState` the status that a user is shown.
-- - Activation: cmd/server/activation_policy.go, activation_redemption.go, repository_activation.go.
--   A request is a process of two database accesses; `run` interleaves any number of them.
-- - Devices: cmd/server/device_policy.go, device_registration.go and its repository.
-- - Users: cmd/server/user_creation_policy.go, user_assignment_policy.go, user_settings_policy.go.
-- - Subscription: `Fields` and `Patch` are cmd/server/subscription_patch_fields.go and
--   subscription_patch_policy.go, `Replacement` is subscription_replacement_policy.go and its command.
-- - ResponseRules: cmd/server/response_rule_matching.go, response_rule_conditions.go,
--   response_rule_headers.go and response_rule_validation.go.
-- - KeyOrder: internal/storage/key_order_repository.go, with failures of its statements.
-- - Jobs: `HealthCheck` is the batch of key checks of cmd/server/jobs.go, with its counters and the
--   mutex around the persister; `Tracking` is cmd/server/job_tracking.go, the rows of jobs.
-- - BulkKeys: internal/keymanagement/bulk_health.go, commands on many keys.
-- - Sources: internal/sources/sync.go with the statements of internal/storage/source_keys.go and
--   category_store.go. `Items` is the parsed feed (types.go, refs.go, parse_links.go), `Rows` and
--   `Statements` are the tables and the statements, `State`, `Repair`, `Index`, `Reconcile` and `Sync`
--   the phases of Sync on syncState; `Statements.KeyStep` is what they may do to the stored keys, as a
--   step relation. `Hwid` is hwid.go, and `Leases` cmd/server/source_fetch_ownership.go: who may
--   publish the result of a fetch.
-- - Profiles: internal/profiles/uri.go. `Ports` has port expressions, `Percent` percent-encoding,
--   `Authority` hosts with ports, schemes and whole URIs, `Query` queries and their canonical order.
-- - Common, Strings and Table: the shared vocabulary, Go's `strings` and Go's maps.
-- - Tests: concrete instances of the parameters, and runs at concrete inputs.
--
-- How the program is read. A string is the list of its runes, and `byte_len` counts the bytes of
-- its UTF-8; a byte outside a valid character, as a cut at a byte leaves it, is a number from
-- 0x110000 on (`Strings.Bytes`). What is percent-encoded is the list of its bytes. A map is an
-- association list in any order. An int64 id is an integer without wrap-around, since ids are only
-- compared; counts and instants are natural numbers. An error is a constructor, and its message is
-- left out. Every loop is recursion on its list; only the digits of a number are taken on fuel,
-- twenty of them, which a number of 64 bits does not exceed. Sort orders stay far from the bounds
-- of 64 bits.
-- A failed statement of a synchronisation ends it, and the caller rolls the transaction back: its
-- result is then the error alone. `ProfileIdentity` stands for the parser of profiles with its
-- fingerprints, for SHA-256, for the JSON of warnings and for the order in which Go visits a map.
-- Go's `net`, the URL parser of `net/url`, `time`, `regexp`, `unicode` beyond ASCII,
-- `utf8.ValidString` on bytes and SQLite's LOWER(TRIM()) are parameters; of them it is assumed only
-- that net.ParseIP refuses the empty text and, where a query is parsed, that the empty text is
-- valid. `url.PathUnescape` and `url.QueryUnescape` are written out as they are documented.
--
-- The limiter's eviction takes "" for no peer, so the bound on its table is stated for peers with
-- an address. The mutex of the limiter makes each of its calls one step, and a transaction of
-- SQLite is one step. Where a call reads outside its transaction, the model has both tables: the
-- redemption of a code (`Activation`), the status of a fetch (`Leases`), whose other requests write in
-- between, and the order of keys (`reorder_keys`), whose query stands before its transaction.
--
-- Not modelled: HTTP handlers, JSON and routing; SQL beyond the statements named above; encryption
-- and password hashing; the protocols of profiles and their rendering; the decoding of feeds;
-- backup, configuration and the frontend.
pub mod Common
pub mod Strings
pub mod Table
pub mod Sources
pub mod Tests
pub mod Model
pub mod Activation
pub mod Devices
pub mod Users
pub mod Jobs
pub mod BulkKeys
pub mod Middleware
pub mod ResponseRules
pub mod Subscription
pub mod KeyOrder
pub mod Profiles
