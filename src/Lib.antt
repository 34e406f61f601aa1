-- ===== src/Lib.antt =====
-- A model of azs3-proxy, a proxy that serves the S3 protocol from Azure storage, and the theorems
-- on the parts of it that decide which bytes a client gets.
--
-- A request passes the concurrency limiter and the signature check of the server, is routed to an
-- S3 handler, and is answered from the cache on disk or from the Azure backend. The parts:
--
-- Cache (internal/cache/lru.go, stats.go, manager.go): LRUCache as a record. `entries` is the Go
--   map from keys to list elements, an element being an address; `lru_list` is the list, the least
--   recently used element in front. Cache.Disk is the file system as the cache uses it, and is part
--   of the state. `get`, `put`, `delete_key`, `clear`, `exists` and `cleanup` are Get, Put, Delete,
--   Clear, Exists and one tick of cleanupExpiredEntries; each takes the readings of the clock that
--   it makes. The mutex makes an operation one step. Cache.Manager is CacheManager over it. The
--   eviction loop runs on fuel, the length of the list, and each round removes an element.
-- Stats (internal/models/s3_stats.go): S3OperationStats; the twenty counters are a function of the
--   method. Counters are 64-bit words that wrap.
-- Errors (internal/models/errors.go): the S3 error codes, their statuses, and AzureErrorToS3.
-- Range (internal/handler/handler.go): parseSingleRange with strconv.ParseInt, the cached blocks of
--   handleRangeGetWithCache, and prefetchBlocks, over a store and a backend that are parameters.
--   The block size is a parameter too; the source has 8 MB.
-- Chunked (internal/handler/chunked_reader.go): AwsChunkedReader.Read on the bytes of a connection.
--   A caller that reads to the end is `drain`, on fuel; one Read more than bytes of data is enough.
--   A connection that is dropped is the end of its bytes; the other errors of a connection have no
--   counterpart, and the body of a request without chunks is always complete.
-- Limiter (internal/server/concurrency.go): adaptiveConcurrencyLimiter. float64 is a parameter, and
--   nothing is assumed of it. Acquire is a poll for each round of its loop.
-- Download (internal/backend/azureblob/concurrent_reader.go): the workers, and run(), which puts
--   their results in order. The order of arrival is any list of results. The inner loop runs on
--   fuel, one round more than there are chunks in the buffer, and each round takes one out.
-- Handlers (internal/handler/handler.go, internal/backend/backend.go, internal/models/s3_responses.go):
--   every S3 handler, from a request and the state of S3Handler to a reply and the next state. The
--   backend is the record StorageBackend, whose calls take and give the state of the storage; the
--   cache is the record ObjectCache, and Handlers.Managed makes one of CacheManager over LRUCache, with
--   the laws that Handlers.Coherence asks of a cache. They hold for keys of which no two have one
--   escaped name, while no file is locked. The goroutines that GetObject starts are a list of what they
--   will cache, and `run_pending` runs the first. Handlers.Coherence has what a storage and a cache
--   promise, and reads and writes through the cache as those of a map. Decoders of XML are
--   parameters, and a reply has what is encoded: no clock readings, owners or storage classes.
-- Auth (internal/auth/sigv4.go): VerifySignature, with the canonical request, the string to sign and
--   the derived key. SHA-256 and HMAC-SHA-256 are parameters, of which nothing is assumed. The keys
--   of the query come in any order, as a range over a Go map gives them.
-- Bandwidth (internal/backend/common/ratelimit.go): the token buckets and their caps. float64 is a
--   parameter; what is assumed of math.Min stands in the theorem. take is a number of rounds of
--   its loop, with a reading of the clock for each.
-- AzureBlob (internal/backend/azureblob/client.go): AzureBlobBackend, whose methods make the record
--   StorageBackend (AzureBlob.Backend). The calls of the Azure SDK are the record BlobService, a
--   parameter; AzureBlob.Account has what the documentation of the service says of them, as named
--   hypotheses. A body is the bytes that it gives and whether it breaks off. The results of the
--   workers of a concurrentReader are made of the downloads of their ranges, in the order of
--   `schedule`, which is what Go's scheduler decides and has each chunk if no context is done. All
--   other calls run one at a time, and the order of a Go map is the one of its list. MD5 and the
--   text of a time are parameters. fmt, sort, base64 and io.ReadFull are written out. The text of
--   the error of a reader is left out, float64 in GetObjectRange is exact below 2 ^ 53, and a nil
--   pointer in ListObjectVersions is a failure without text.
-- Server (internal/server/server.go): authMiddleware, concurrencyMiddleware, the routes, and PUT
--   /admin/caps. What chi matches, whether a signature verifies, and what json decodes are parameters.
-- Config (internal/config/azure_auth.go, internal/config/config.go): the Azure credentials that are
--   loaded from the environment, and LoadConfig with Validate (Config.Settings). The environment,
--   the test whether a file is there and strconv.ParseFloat are parameters. Config.Credentials
--   (internal/backend/common/credentials.go, internal/backend/azureblob/credentials.go) has the
--   credentials and the blob client that are made of a configuration.
-- Prelude has the shared names and lemmas, Tests the runs on concrete inputs.
--
-- Not modelled: the encoding of XML, the Azure file client, which has the methods of the blob client
-- over another SDK, the wiring of main.go, transports, logging and telemetry. Success rates are left
-- out, and so are the texts of errors that nothing reads. A Go string is the list of its characters.
-- A write or a copy of a file either fails and changes nothing, or is complete.
pub mod Prelude
pub mod Cache
pub mod Stats
pub mod Errors
pub mod Range
pub mod Chunked
pub mod Limiter
pub mod Download
pub mod Handlers
pub mod Auth
pub mod Bandwidth
pub mod AzureBlob
pub mod Server
pub mod Config
pub mod Tests
