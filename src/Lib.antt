-- ===== src/Lib.antt =====
-- The Go SDK helios-permissions-go: whether a user of a tenant has a permission, answered from a
-- cache and, on a miss, by the service Helios.
--
-- The parts and how they interact
--
-- A caller holds the facade of helios_permissions/permission_client.go. CallerHasPermission,
-- GetUserPermissions and Explain first test, where they are about one permission, whether it is
-- universal (helios_permissions/role_permissions.go), and then read the cache behind the interface
-- of helios_permissions/cache.go. On a miss, one fetch for the pair of user and tenant runs for all
-- callers (`inFlight`): it asks Helios through helios_permissions/client.go and stores the answer
-- with the cache's Set. Invalidate, InvalidateTenant and WriteThrough go to the cache alone. The
-- interface has two implementations, helios_permissions/in_memory_cache.go and
-- helios_permissions/redis_cache.go; helios_permissions/factory.go wires the second one to a Redis
-- client and to Helios.
--
-- The files
--
-- Prelude: Go's strings as lists of bytes, maps as association lists, int64 and durations, and the
-- lemmas on them. Errors: the error values of the package, their texts, and the outcomes of
-- constructors.
-- Permission, Scope, Roles: helios_permissions/role_permissions.go. The constants stand in
-- Permission.Athens to Permission.Zeta by service, the tables PERM_SCOPE, SELF_PERMISSIONS and so on
-- in Scope.Tables, ROLE_PERMISSIONS in Roles.Tables, and the functions IsValidPermission to
-- IsUniversalPerm in Scope and Roles under their names in snake_case.
-- Cache: the interface, a record of methods that take the state of the cache and return it beside
-- their results. A slice of permissions is an Option of a list, with none for nil. Cache.Spec says
-- what the comments of the interface promise, on a table from pairs to slices; Cache.Contract is
-- what the client relies on.
-- Memory: InMemoryPermissionCache, its map as an association list under `mem_key`.
-- Redis: RedisPermissionCache over a parameter for go-redis and encoding/json. Redis.Server names
-- the laws of a server that answers and of the codec, and the guarantee of SCAN.
-- Helios: HeliosClient, with the request, its signature, and the reading of the reply by status.
-- Helios.Decimal and Helios.Hex are strconv.FormatInt in base ten and hex.EncodeToString.
-- Client: the facade. A call takes the state of the cache, of the network and of `inFlight`, and
-- returns it with its result; none stands for a wait that nobody ends. Client.InFlight runs
-- getOrStart for a call that is alone; Client.Coalescing is the step relation for any number of
-- calls and fetches at once. Client.Interleaving has the cache too: a step is one call of a method of
-- the cache, one reply of Helios, or a step of `inFlight`, and each step says what happened, so
-- that a theorem can ask which permissions were answered or written for which pair. It speaks of
-- any cache that keeps the promise of the interface (Cache.Faithful); Memory.Refinement and
-- Redis.Faithful show that the two do. Client.Fold is foldSelfPermissions.
-- Client.Requests has the methods of the interface `Client` as data, for sequences of calls. Its
-- child Spec says what they do to a table, in terms of foldSelfPermissions, IsUniversalPerm and
-- FetchUserPermissions.
-- Factory: Create, with its checks in order, and Close. Duration: secondsToDuration.
-- Codegen: cmd/codegen/main.go, the generator of helios_permissions/role_permissions.go. `emit`
-- gives the declarations that it writes as a record, and Codegen.Text writes them as the code does:
-- `emit_text` is the function of the source, with the date of the run as an argument, and
-- Codegen.Main is `main`.
-- Codegen.Text.Reading reads the lines back, and Codegen.Meaning reads declarations as Go does, by
-- the names of the constants.
-- Tests: cases of helios_permissions_test run on the definitions, and a server and a network to
-- run them on.
--
-- Bounds and fuel
--
-- The only loop without a bound in its data is the SCAN loop of InvalidateTenant. It takes fuel, and
-- Redis.Scan says how much is enough for a server whose iterations end. Behind the interface a
-- sweep that is not over after a given number of pages is a call that does not return. int64 wraps
-- as written in Prelude.Ints; status codes, lengths and the limits of 4096 bytes and 1 MiB are
-- natural numbers.
--
-- What is a parameter
--
-- The clock, HMAC-SHA256, URL checking, the exchange of http.Client, json.Unmarshal of a resolution
-- (Helios.Env), the Redis client with its server, json on lists of permissions (Redis.RedisClient),
-- the opening, PING and closing of connections (Factory.Driver), and for the generator the file
-- system, json.Unmarshal of a contract and the day (Codegen.Main.Machine).
--
-- What is not modelled
--
-- The loggers and every call to them, which keep no state and return nothing;
-- contexts and their deadlines, which reach the model as failed replies; expiry of keys, so the
-- theorems on a Redis server are for the default of no expiry; other writers of the same Redis
-- between two commands of one method. The RWMutex of the in-memory cache makes each method one step.
-- Unwrap of client.go, and timeFormat and formatError, which only tests use. In cmd/codegen/main.go
-- role names are taken to be ASCII where it lowers them, and constants where it quotes them.
mod Prelude
pub mod Permission
pub mod Scope
pub mod Roles
pub mod Errors
pub mod Cache
pub mod Memory
pub mod Redis
pub mod Helios
pub mod Duration
pub mod Client
pub mod Factory
pub mod Codegen
mod Tests
