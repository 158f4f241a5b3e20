-- ===== src/Lib.antt =====
-- Verification of httpio, an HTTP client library for Go.
--
-- A client sends requests through a chain of middlewares, each a function from handler to handler
-- (middleware/middleware.go); the first one is the outermost. The middlewares are independent of
-- each other and meet only in the chain: the circuit breaker refuses requests after too many
-- errors, the retry middleware sends a request again, the OAuth middleware sets a token, the header
-- middleware sets headers, the logger writes entries about the request and its answer, and the cache
-- middleware answers from a store, in memory or on disk. Streams read the body of the response that
-- the chain gives; the mock server writes such bodies.
--
-- The parts and their files:
-- - Base (with Base/Tests, Base/Lists, Base/Text, Base/Int): Boolean tests, lists, strings as lists of
--   bytes, and the int whose sign the code tests, with its addition and order. It models package
--   strings as far as it is used.
-- - Http (with Http/Headers): net/http as the library uses it. A handler takes a context, a request
--   and a world, and gives two results, the request (handlers change it in place) and the world. A
--   header is a list of canonical names with values; a response names its body in the world.
-- - Middleware: `Chain` and `WrapMiddleware`; Middleware/Order is about the order of a chain.
-- - Breaker: middleware/circuitbreaker/circuit_breaker.go. The record `CircuitBreaker` has the fields
--   of the struct and the notifications given so far; `process_request`, `process_response`,
--   `reset`, `is_open` and `handle` are `processRequest`, `processResponse`, `Reset`, `IsOpen` and
--   the handler of `Middleware`. `get_state` and `get_consecutive_errors` read it. Breaker/Invariant keeps the invariant, Breaker/Trip counts the errors,
--   Breaker/Recovery follows the half-open state, and Breaker/Interleaving has a step relation in which
--   any number of requests are between their lock-free look at the state, their entry under the
--   lock, and their response.
-- - Retry: middleware/retry/retry.go. `attempts` is the loop of `Handle`, by recursion on the rounds
--   that are left, which are MaxRetries at the start, so no fuel is added. The clock, the sleeping,
--   the context and the random numbers are a parameter (`Host`), and so is float64 arithmetic
--   (Retry/Float64), of which no law is assumed. Retry/Attempts and Retry/Count count the calls, Retry/Bodies follows the bodies of the responses, Retry/Faults has what the loop
--   does against its comments, Retry/Resend is about the requests of the attempts, and Retry/Guarded
--   puts the middleware in front of a circuit breaker.
-- - Cache and Cache/Memory: middleware/cache/memory_cache.go, with the list of container/list as a
--   list of element numbers and a heap of entries. Cache/Memory/Invariant and Operations keep the
--   invariant, Runs has runs of calls, Lru is the abstract view as a list in order of use, Cleanup is
--   the removal of what has expired, and Race is `Get` split at the point where it holds no lock.
--   Lifetime adds `Close`, `Size` and `StartCleanupTask`: a run is a sequence of calls and of ticks of the
--   goroutines that were started; after `Close` the map and the list are nil, and what uses the nil list
--   panics.
-- - Cache/Config, Cache/Keys, Cache/Policy and Cache/Serve: middleware/cache/config.go and cache.go.
--   Keys has the key strategies, with the hash as a parameter, Keys/Collisions compares the keys of
--   two requests, and Keys/Order has a header as a map, a quotient of the lists by their order; Policy has the tests of requests and responses; Serve has `handle`, the handler over any
--   store (the record `Store` of `Get` and `Set`). A `Set` in a goroutine is a call in the list `pending`
--   of the world, which `run_pending` carries out. Serve/Hits has the laws of a store and what a hit
--   gives, Serve/Misses what else the handler does, Serve/Again follows a response from its arrival
--   through the store to a later request, Serve/InMemory shows that the memory cache has the laws.
-- - Cache/Disk: middleware/cache/disk_cache.go, over a directory of files and the functions of package
--   os, each of which may fail: `fault` of the record `System` says which call fails. A call of the cache
--   is atomic. Disk/Calls has `Get`, `Set`, `Delete` and `Clear`, Disk/Space makes room, Disk/Load reads
--   the directory and has `Cleanup`. Entries of the same age are sorted stably, in the index's order.
--   Disk/Runs has runs of whole calls, a tick of `StartCleanupTask` being a call of `cleanup`, and what
--   the files of a run take, with Disk/Files (files that go), Disk/Usage (the counted size),
--   Disk/Eviction, Disk/Removal and Disk/Emptying (the calls) as its parts.
--   Disk/Bounds is about the room that is made, Disk/ReadBack about a file that is read
--   again, Disk/Restart about a cache that is opened on the files of another one.
-- - Client: httpio.go and internal/client/request.go. `Client` and `ClientRequest` are the structs
--   `Client` and `Request`; Client/Execute has `Do` and `buildMiddlewareChain`, with net/url,
--   encoding/json and `http.Client.Do` as a parameter (`Platform`), Client/Order is about the order
--   of the middlewares and the results of `Do`, Client/Resend about a client that retries,
--   Client/Responses about internal/client/response.go, and
--   Client/Readers has the methods that read a whole body and the stream methods of responses and
--   requests. `Pipe` is a loop over one buffer, of which the channel gets slices.
-- - Custom: middleware/headers/header.go; Custom/Keeps is about the headers that a request has.
-- - Example: example/custom-middleware/main.go, with the clock and the standard output as a parameter;
--   Example/Traced follows a request through the three middlewares. Example/Streaming is
--   example/stream/mock_server.go, over the response writer of Mock.
-- - Logger: middleware/logger/logger.go: the configuration and what is redacted; packages
--   encoding/json and regexp are a parameter (`Parsers`), a JSON value is the data type `Json`.
--   Logger/Handle has the handler, with bodies, the clock and uuid as a parameter (`Platform`); a sample
--   rate is a fraction, without the rounding of float64. Logger/Standard is the logger that writes to the
--   standard output. Logger/Redaction is about JSON bodies, Logger/Handle/Clean about what is
--   given to the logger, Logger/Handle/Passes about what is handed back.
-- - Mock: mockserver/mock_server.go, with the writer of net/http as the record `ResponseWriter`, whose
--   connection may break. Mock/Routes has the kinds of route, Mock/Rest the REST resource over a map in
--   the shared state (Mock/Rest/Items says what its items are to do, Mock/Rest/Refines compares them),
--   Mock/Data the data and Mock/Setup the routes of mockserver/mocksetup.go, where a price is in
--   hundredths; Mock/Dispatch is about which handler a request comes to, Mock/Ndjson and Mock/Events
--   compose a route with the client's stream.
-- - Oauth: middleware/oauth/oauth.go. Oauth/Requests has the requests to the token server,
--   Oauth/Access `getValidToken` and `Handle`; the clock, the server, the JSON decoder and the
--   encoding of forms are a parameter (`Platform`). An instant is a number of nanoseconds; lifetimes
--   wrap in 64 bits as the source's product does. Oauth/Tokens is about the token that is kept,
--   Oauth/Sharing has a step relation in which any number of requests are between their look at the token
--   under the read lock and their turn under the write lock,
--   Oauth/Unauthorized about 401 answers, errors, and the refresh_token grant.
-- - Stream: internal/client/stream.go. `stream_loop`, `stream_json` and `stream_sse` are the loops of
--   `Stream`, `StreamJSON` and `StreamSSE`. Stream/Lines has `StreamLines`, on fuel that counts the
--   calls of `Scan` (Stream/Lines/Ends says how much is enough, Stream/Lines/Pieces which lines are
--   given out), and `StreamInto`, where a data type has what reflection tells. Stream/Scanner is
--   bufio.Scanner with its limit of 65536 bytes for a line, Stream/Chunks is about raw chunks, and Stream/Sse about events: Stream/Sse/Deliver
--   about the order in which they are given to the handler, Stream/Sse/Closed about the closing of the
--   reader, Stream/Sse/RoundTrip about reading what mockserver/mock_server.go writes.
--
-- Integers of the source that are counts or sizes are natural numbers; Go's int of 64 bits is
-- not reached by the counters. Where the source tests the sign, an integer type is kept; the products
-- that give a lifetime in nanoseconds and a size limit in bytes wrap (`int64_times` in Base/Int).
--
-- Not modelled: the goroutine of the disk cache's `StartCleanupTask`, but for its ticks; `Start` and
-- `Stop` of the mock server, which call net/http; the programs under example/ that call the client and
-- print what they get; patterns of the logger's sensitive fields that do not compile, for which
-- regexp.MustCompile panics; and the locks of the caches and of the mock server, whose calls are atomic
-- here, but for the race of `Get` in Cache/Memory/Race.
pub mod Base
pub mod Http
pub mod Middleware
pub mod Breaker
pub mod Cache
pub mod Client
pub mod Custom
pub mod Example
pub mod Logger
pub mod Mock
pub mod Oauth
pub mod Retry
pub mod Stream
