-- ===== src/Lib.antt =====
-- The media API of pf-media (apps/api): uploads through presigned URLs, a drive of folders and
-- files, share links, a quota, and the jobs of an image processor.
--
-- The parts, and the files that model them
--   A client asks the service for an upload URL (`Presign`), puts the object into object storage,
--   and reports it (`Complete`). The service checks the object, charges the quota and, for an image,
--   queues a job; the processor answers with `FinishJob`. The service keeps its rows in a
--   `domain.Store` and its objects in an `ObjectStore`.
--   * Domain: apps/api/internal/domain/domain.go. The structs, statuses and errors.
--   * Store: the interface `domain.Store`, as a record of state transitions. Store/Memory:
--     apps/api/internal/store/memory/store.go, each method under its own name in snake case.
--     Store/Postgres: apps/api/internal/store/postgres/store.go. Rows has the tables of its
--     migrations, Statements each SQL text as a function on the tables, Pool a call of pgx and a
--     transaction, Files and Drive the methods, Opening `Open` and `migrate`. Keeping, Budget,
--     Integrity, Invariant and Finding are what the methods keep of the tables, and AsMemory sets
--     each method beside that of the memory store, and AsMemory/Creating `CreateFolder` beside the
--     keys and references of its table.
--   * Queue: apps/api/internal/queue/redis.go. Telemetry: apps/api/internal/telemetry/telemetry.go.
--   * Mime: apps/api/internal/mimeutil/mime.go. Objects: the client of
--     apps/api/internal/objectstore/minio.go, and ObjectKeys: the three functions on keys at the end
--     of that file. ShareToken: apps/api/internal/sharetoken/token.go.
--   * Service: apps/api/internal/service/media.go. The interfaces and the helpers that several
--     operations use stand in Service; Service/Uploads has `Presign` and `Complete`, Service/Files
--     the files and the quota, Service/Shares the share links, Service/Folders the folders,
--     Service/FolderTree the deletion of a folder, Service/Jobs the jobs. Service/Preserved goes
--     through every operation once for any property of the database that the methods of a store
--     keep. Service/Steps makes the service a transition system.
--   * Password: apps/api/internal/password/password.go. Auth: apps/api/internal/auth/auth.go.
--     Config: apps/api/internal/config/config.go.
--   * Web: apps/api/internal/web/server.go. Web has the requests, the responses and the status of an
--     error, Web/Handlers the handlers under their own names in snake case, Web/Routes the patterns
--     of the mux, the switch behind the middleware, and the server as a function of a request and a
--     state. Web/Acting composes the steps of the service that a request takes.
--   * Main: apps/api/cmd/api/main.go, the parts that `main` puts together from the configuration, and
--     in Main/Booting the order in which it reaches the database, the bucket and the queue.
--   * Exec: the effects. Base: strings, dictionaries, int64 arithmetic and Go's string functions.
--   * Tests: runs, and the theorems at concrete data.
--
-- How the code is read
--   * An operation is a function from a world to a result and a world. A world has the database and
--     the rest (object storage, queue, clock, randomness), whose type is a parameter. An operation
--     that ends in an error keeps the changes it made before, as in the code. A step of the service
--     is one whole call; calls that interleave are not modelled. A method of the memory store holds
--     a mutex, so it is one step.
--   * A string is the list of its bytes. A time is its nanoseconds. An int64 is an integer, and its
--     sums and negations wrap. `TrimSpace` and `ToLower` are Go's on ASCII and on the byte sequences
--     that UTF-8 gives to the other white space; a letter outside ASCII is kept.
--   * A map is a list of its entries. Go ranges over a map in any order; here the order is that of
--     the list, so a result that depends on the order is that of one of Go's runs.
--   * An absent job status of a `FileView`, Go's empty string, is an absent option.
--   * Object storage, the queue, the clock, ULIDs and crypto/rand are parameters of the service, as
--     the records of Service; argon2.IDKey is one of Password; minio-go is the record `Minio` of
--     Objects; jwx, the HTTP client and the JSON of the userinfo endpoint are the record `Identity`
--     of Auth; the JSON of a request's body is the record `Decoders` of Web. What a theorem needs of
--     them is one of its hypotheses. strings, strconv, base64 and the patterns of the mux are written
--     out in Base and Web/Routes.
--   * A request has a clean path without escapes, so that the mux redirects only "/v1" to "/v1/".
--     Requests come one after the other; the lock around the cache of keys is not modelled.
--   * A table of Postgres is the list of its rows in the order of their insertion. A statement is a
--     function from tables to a value and tables, or to the SQLSTATE of the key, the reference or the
--     number range that it violates; keys and references are those of the migrations, with ON DELETE
--     CASCADE and RESTRICT. `Backend` is what is left to pgx and the server: whether a call fails
--     before it runs or after, the clock, what a column keeps of a time and of JSON, the collation.
--     Rows that ORDER BY does not tell apart keep the order of the table. A transaction sees no
--     other; until its commit the tables are as they were.
--   * The deletion of a folder recurs on folders that the store lists, and loops over batches. Its
--     model has fuel for both (`depth`, `rounds`), and answers nothing when it runs out: more depth
--     than folders are nested, and more rounds than there are files, are enough. A step of the
--     transition system is a run with any fuel that answers.
--
-- What is not modelled
--   The listener and the shutdown of `main`, the ids of apps/api/internal/id (calls of ulid), and the
--   calls of libraries: pgx, go-redis, minio-go, OpenTelemetry. The JSON of responses is
--   encoding/json. apps/processor and apps/web are other programs.
pub mod Base
pub mod Domain
pub mod Exec
pub mod Store
pub mod Mime
pub mod ObjectKeys
pub mod ShareToken
pub mod Password
pub mod Service
pub mod Auth
pub mod Config
pub mod Web
pub mod Objects
pub mod Queue
pub mod Telemetry
pub mod Main
pub mod Tests
