-- ===== src/Lib.antt =====
-- A verification of the core of kinetex, the HTTP client of this repository: the parts that keep
-- state or parse text and that the client composes around a request. Equal requests share one run
-- through the deduplication map (src/dedup.ts); a request passes the interceptors and the
-- concurrency limiter (both src/interceptors.ts) and the circuit breaker of its origin
-- (src/circuit-breaker.ts), and gets its cookies from the cookie jar (src/cookie-store.ts), which
-- takes those of the response, parsed by src/cookie-parser.ts; a response may come from the cache
-- (src/cache.ts); a response that is an event stream goes through the parser of src/sse.ts. The
-- components do not share state; the client calls them one around the other.
--
-- - Breaker models src/circuit-breaker.ts: Breaker.Settings the options with their defaults and
--   the filter of failures, Breaker.State the fields of CircuitBreaker and its snapshot, Breaker
--   the operations under the names of the source (execute, settle_success and settle_failure for
--   the two reactions of its promise, trip, reset, _checkTransition, _recordSuccess,
--   _recordFailure), Breaker.Registry the class CircuitBreakerRegistry. The other children prove.
-- - Limiter models the class ConcurrencyLimiter of src/interceptors.ts: acquire, release, drain,
--   and abort for the event of a signal; a maxConcurrent that is not whole is kept rounded up.
-- - Sse models SSEParser and parseSSEText of src/sse.ts, Sse.Lines its splitting into lines,
--   Sse.Server what SSEServerResponse writes, for delays that are safe whole numbers.
-- - Dedup models the class DedupMap of src/dedup.ts: execute, the two reactions of its promise,
--   the window timers, the abort listeners, clear, invalidate and resetMetrics. A run of the
--   factory is numbered, and the number is the identity of its entry. The key function is a
--   parameter; Dedup.DefaultKey is defaultDedupKey.
-- - Cookies models the class CookieJar of src/cookie-store.ts: setCookie, putCookie, removeCookie
--   and the clearing operations; Cookies.Rules its data and the rules on prefixes and SameSite,
--   Cookies.Store the map from domain to path to name, Cookies.Eviction the two evictions,
--   Cookies.Retrieval getCookies and the other readers, Cookies.Persistence fromJSON and what is
--   made of other operations, Cookies.Domains the matching of src/cookie-parser.ts.
--   Cookies.Effects says what setCookie may do with a header. The other children prove. The
--   record Platform is the interface to the URL parser, the header parser and the tests on hosts.
-- - Cache models src/cache.ts: Cache.Lru the class LRUTracker with a node per key whose links are
--   keys, Cache.Directives parseCacheControl and buildVaryKey, Cache.Freshness computeTTL and the
--   data, Cache.State the fields of HTTPCache with _delete and _ensureCapacity, Cache.Settings
--   the options with their defaults, Cache.Requests the constructor and get, Cache.Storing set,
--   Cache.Upkeep revalidate, warm and the flags of revalidation, Cache.Invalidation delete,
--   invalidateByTag, invalidateByURL and clear, Cache.Persistence serialize and deserialize. The
--   eviction loops run on fuel, one more than the nodes of the tracker, of which each round takes
--   one. The storage is a Map, and its answer to a write an argument; a call is one step, so that
--   writes which overlap at their awaits are not part of the model; Date.parse and the key
--   function are parameters. Numbers has NaN and the infinities, Strings the methods of texts.
-- - CookieParser models the rest of src/cookie-parser.ts: CookieParser.Dates parseCookieDate,
--   CookieParser.SetCookie parseSetCookieHeader, CookieParser.Formatting formatSetCookieHeader,
--   CookieParser.Splitting splitSetCookieHeaders with the state of its loop,
--   CookieParser.Addresses isIPAddress, CookieParser.PublicSuffix the algorithm of the public
--   suffix list, CookieParser.Punycode decodePunycode. Its loop over the digits of a number goes
--   along the text; the loop of adapt runs on its number as fuel, since each round divides it by
--   35.
-- - Interceptors models other parts of src/interceptors.ts: Interceptors.Manager the registration
--   and ejection in InterceptorManager, Interceptors.RateLimit the token bucket of
--   createRateLimitInterceptor, whose tokens are counted in parts of which one token has as many
--   as the window has milliseconds; its timer is an event.
-- - JsMap is the Map of the language, and Base passes on the names of the libraries. Tests holds
--   the theorems at concrete inputs and runs of the model.
--
-- Conventions. A class is a record, a method a function that returns the new record, and null or
-- undefined is Option. A handler runs at one instant, which is its argument: the readings of the
-- clock within it agree. Numbers are natural; what the source does with others is said where it
-- tests for them. Texts are lists of UTF-16 code units where the source walks them, and native
-- texts where it only compares them. User callbacks are entries of a log; that they call back
-- into the object during the call is not modelled. Asynchronous code is cut at its await points,
-- and a theorem about all interleavings is about sequences of the pieces. Fuel stands in
-- Sse.Server.Decimal, where n + 1 rounds print n and are proved to be enough, and in the loops of
-- Cache and CookieParser that are named above.
--
-- Not modelled: the transports and runtimes (src/core.ts, src/socks5.ts, src/proxy.ts), input and
-- output, cryptography, and the parts of the client that only call these; the manifest names each
-- part of the program.
pub mod Base
pub mod JsMap
pub mod Breaker
pub mod Limiter
pub mod Sse
pub mod Dedup
pub mod Cookies
pub mod Cache
pub mod Numbers
pub mod Strings
pub mod CookieParser
pub mod Interceptors
mod Tests
