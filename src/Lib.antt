-- ===== src/Lib.antt =====
-- pluto_feed: posts, likes, comments and follows, a Go server and a worker process.
--
-- The parts and how they interact. The server (cmd/server) answers requests: handlers call the services
-- of internal/service, which call the repositories of internal/repository (MySQL through GORM), the
-- cache of internal/cache (Redis) and the Bloom filter of internal/bloom. A like or a comment is written in
-- one transaction with an event row in the outbox. The worker (cmd/worker, internal/worker) relays the
-- pending events to RabbitMQ (internal/mq), and its consumer adds each event to the counts of the
-- post, once for each event id, and drops the cached post.
--
-- Which file models which part:
--   Prelude       helpers: tests, lists, Go strings as bytes, integers, decimal numbers, base64
--   Apierror      internal/apierror/errors.go, with results and actions (calls that thread a state)
--   Outcome       rules for what a call leaves behind
--   Model         internal/model: the rows of the tables
--   Db, Sql       the tables, what each statement documents to do to them, and the database service as a
--                 parameter with these laws; Db.Pages: keyset pagination
--   Repository    internal/repository: Interaction, Outbox, Post, User, Social
--   Cache         internal/cache/cache.go over the Redis parameter; Cache.Reads: GET after SET and DEL
--   Bloom         internal/bloom/bloom.go, the ids of internal/service/post_service.go, and the loading in
--                 cmd/server/main.go
--   World         the state that the services share: the tables, the cache, the filter
--   Mq            internal/mq/mq.go: Publish; Mq.Confirms: what the relay marks; Mq.Topology:
--                 SetupTopology and NewPublisher, and where their declarations send messages
--   Worker        internal/worker/worker.go: Apply, relayOnce, the consumer's turn; Worker.Drains: the
--                 rounds of RunRelay
--   Counts        the ledger of like_count and comment_count; Counts.Runs: server, relay, broker and
--                 consumer as one step relation
--   Jwtutil       internal/jwtutil/jwtutil.go over the golang-jwt parameter; Jwtutil.Kinds: the two types of
--                 tokens
--   Service       internal/service: Cursor and Feed (feed_service.go), Views (post_view.go), Social,
--                 Interaction, Post, Profile, Auth, Upload; Service.Interaction.Checked and
--                 Service.Social.Followed: their checks; Service.Post.Reads: reading through the
--                 cache against reading the tables; Service.Feed.Hot: what the cached ranking holds
--   Disk, Rates   the files of the uploads and the Redis commands of the rate limits, as parameters
--   Http          a request, its context, the server's state and responses, and Deps of
--                 internal/router/router.go
--   Middleware    internal/middleware: auth.go, ratelimit.go, chain.go
--   Handler       internal/handler: one module for each file; health.go is in Feed, search_handler.go in
--                 Post; Params has what they share
--   Router        internal/router/router.go: the routes with their middlewares
--   Config        internal/config/config.go
--   Startup       cmd/server/main.go up to listening
--   Model.StringList  internal/model/stringlist.go
--   Tests         services in memory that satisfy the laws, and runs on them
--
-- How the code is translated. A Go function that may fail and changes a state is a function from the state
-- to a result and the new state; what was written before an error stays, except in a transaction,
-- which is a parameter with the laws of atomicity. An int64 and a time (its nanoseconds since 1970)
-- are integers, a Go string is a list of bytes, a map is a function or an association list. What the
-- environment does (failing statements, lost or late confirmations, redeliveries, the time, random ids)
-- is an argument or a step. Sums of int64 counts are not wrapped: they stay below the number of rows.
-- Words of 64 bits wrap in the hash of the filter. Recursion is on lists, except in printing a number,
-- where the number of rounds is one more than the number, which is at least its number of digits.
--
-- Parameters, with what is assumed of each: the database (SqlLaws: a statement fails and changes nothing, or
-- has its documented effect, nicknames being compared by the collation of their column; IsAtomic for
-- transactions; the Answers records: it does not fail), Redis
-- (RedisLaws, RatesLaws, Answers), the AMQP client (Answers), the file system (DiskLaws), the JSON codecs
-- (RoundTrips, PostsBack, UsersBack, KeepsLikes), the floating-point sizes of the filter, bcrypt, SHA-256,
-- golang-jwt (IsFaithful), the format of a minute and of a month, strings.TrimSpace, the binding of bodies and forms,
-- http.DetectContentType, the YAML codec and the environment.
--
-- Not modelled: how gin finds the route of a path, its static files, its logger and its recovery from panics;
-- internal/middleware/logger.go and recover.go, which the router does not use; the goroutines and signals
-- of cmd/worker; logging; the web client. The floating-point scores of a rate limit's window are
-- parameters (Scores); keys that expire are not removed from the counters of the limits, since they live
-- longer than the windows that read them. Two requests at one time are the sequence of their transactions;
-- singleflight is one run of its function. Runs in which transactions overlap are not modelled: two deletions
-- of one comment at a time can both write an event of -1, which the results on counts exclude.
pub mod Startup
pub mod Config
pub mod Router
pub mod Handler
pub mod Middleware
pub mod Http
pub mod Rates
pub mod Disk
pub mod Prelude
pub mod Bloom
pub mod Apierror
pub mod Outcome
pub mod Model
pub mod Db
pub mod Sql
pub mod Repository
pub mod Jwtutil
pub mod Service
pub mod Cache
pub mod World
pub mod Mq
pub mod Worker
pub mod Counts
pub mod Tests
