-- ===== src/Lib.antt =====
-- FeedPulse watches RSS feeds for the keywords of its tenants and sends alerts. A scheduler claims the
-- feeds that are due and hands them to workers; a worker fetches a feed, stores its new entries,
-- matches them against the tenant's rules and creates alerts; a delivery job sends an alert by webhook,
-- email and Telegram, within the tenant's daily email quota. A tenant registers feeds one by one, after
-- a probe of the url, or imports an OPML file: one job parses it into a preview, and after the tenant
-- confirmed it a second job creates the feeds. Every request to a url that a tenant gave goes through
-- a fetch that checks the url of each hop.
--
-- The files and the code that they model (paths from the repository's root):
--   Base: shared lists, tables of rows, sorting, keys and results.
--   Feeds: src/modules/feeds. Row is the table's row and the entity, Claim has claimDueFeeds,
--     releaseStuckFeeds and isClaimed, Editing has create, update, disable, updateAfterFetch and the
--     lookups of feeds.repository.ts, Quota the use case of application/register-feed.use-case.ts
--     and Registering its steps where requests overlap.
--     Validation is application/validate-feed-url.use-case.ts. Registration, Batch, Claiming,
--     Exclusion, Recovery, Disabling and Probing prove, Keys has the lemmas on the key and Priority
--     the order of the claims.
--   Text: Normalize is src/shared/text/normalize-search-text.ts, Keywords is
--     src/modules/ingestion/domain/keyword-match.ts. Occurrence and PatternCache prove. Characters has
--     the operations of strings that the parts share.
--   Notifications: Counter has the Redis commands and Quota the service of
--     src/modules/notifications/infrastructure/email-rate-limit.service.ts. Contention has its calls
--     as steps of concurrent workers; Reservations and QuotaLaws prove.
--   Alerts: Row, Marks and DigestQueue are src/modules/alerts/alerts.repository.ts, Delivery and
--     Process are process-alert-delivery.use-case.ts and deliver-alert.use-case.ts beside it in
--     application, Notifier has the ports, Digests the sweep of process-telegram-digests.use-case.ts,
--     Worker the attempts and dead letters of src/modules/ingestion/worker.runner.ts. Rows, Columns,
--     Monotone, Calls, Outcome, Completion, Unsent, Converging, Repairs and DeadLetters prove.
--   Ingestion: Failure and Job are src/modules/ingestion/application/process-feed-job.use-case.ts: the
--     classification of failures, the delays, the outer catch and the 304 branch. Scheduling is
--     schedule-due-feeds.use-case.ts and release-stuck-feeds.use-case.ts beside it, over
--     src/infrastructure/queue/fetch-feed.queue.ts, RateLimiter is
--     src/modules/ingestion/infrastructure/domain-rate-limiter.ts, Fetcher is http-feed.fetcher.ts beside
--     it, over Http, and Fetching proves on it. Backoff, Retrying, Enqueues, Queueing,
--     Sweeps and Spacing prove.
--   Http: UrlSafety is src/shared/http/url-safety.ts; SafeFetch has safeFetch, Body the limited read
--     and Charset the decoding of src/shared/http/safe-fetch.ts. Redirects, BlockedHosts, MappedHosts
--     and Limits prove, with the lemmas of Octets and Quads on printed numbers.
--   Opml: src/modules/opml-imports. Status, Parser, Walk and Urls are its domain folder (Parser has
--     the regular expressions of opml-parser.ts, Walk its loop), Tables is
--     opml-imports.repository.ts, Requests the two use cases create-opml-import and
--     confirm-opml-import, Preview the job of process-opml-parse-job.use-case.ts, Apply the items and
--     ApplyJob the transaction of process-opml-apply-job.use-case.ts. Folders, Runs, Unqueued, Settling
--     and NewItems prove, on Paths, Marks, Lifecycle, JobMoves,
--     Creations, Applied and Distinct.
--   Settings: src/modules/settings. Rows is settings.repository.ts, Secrets tenant-secrets.service.ts,
--     BotToken telegram-bot-token-resolver.service.ts. Vault, Binding and Upgrades prove.
--   Throttle: src/shared/http/throttler.module.ts. Store has the counters, Guard the guard's decision.
--     Windows proves, with the lemmas of Lookups.
--
-- A table is the list of its rows and a statement a function on the list; a statement that throws
-- leaves the table. Time is an argument in milliseconds. SQL's RANDOM() and Math.random() are a draw
-- below 2 ^ 53 over 2 ^ 53. A row that another transaction locks is given by a predicate. A Redis
-- command either answers or throws as an argument says. The answers of the network, Unicode's tables
-- and the printing of numbers are arguments, as are the parser of urls, of feeds and of dates, the
-- decoders of charsets and node:crypto. A regular expression is a function by recursion on the code points
-- of the text. Every loop is structural recursion: no fuel is used, and the redirect loop has the
-- source's own bound.
--
-- Not modelled: the senders, the HTTP layer, configuration, logging and metrics, which are input and
-- output; and so far the creation of alerts, rules and authentication. A database that fails in the
-- midst of a delivery job, and the counters of requests in Redis, are left out as well. The check of a
-- url reads the host's name: what it resolves to is the network's.
mod Base
pub mod Feeds
pub mod Text
pub mod Alerts
pub mod Notifications
pub mod Ingestion
pub mod Http
pub mod Opml
pub mod Settings
pub mod Throttle
