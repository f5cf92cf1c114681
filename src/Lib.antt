-- ===== src/Lib.antt =====
-- A verification library for the LawCast backend, a service that watches the legislative notices of
-- the National Assembly of Korea, archives them, records every change of a notice in an append-only
-- chain and sends notifications.
--
-- The program's parts that are modelled, and how they meet. The archive hands two snapshots of a
-- notice to `buildDiffEvent`, which compares them field by field and hashes the canonical text of what
-- it found. `appendChangeEventWithDetails` inserts the event and its details behind the notice's last
-- event. `dispatchChangeNotification` queues a notification for it, and the queue is flushed to the
-- batch service, which runs jobs in chunks with retries and time limits. Cron jobs audit the chains:
-- they build each event again from the stored details and compare. The crawlers share a few browsers
-- through a lease manager. The crawled notices go into a cache of recent notices; bills that come
-- without a reason wait in a retry queue in Redis until a drain resolves or drops them, and the
-- resolved ones go into the cache and to the notifications. A notification batch plans its jobs, lets
-- the batch service run them, sends to the active webhooks, deactivates those that fail for good, and
-- sums up the rows; cleanup jobs delete inactive webhooks later. Every name below is that of the
-- source in snake case.
--
-- Base         Native numbers, Boolean tests, lists and association lists.
-- Promises     A promise as the time and the outcome at which it settles, or none if it never does.
-- Concurrency  src/utils/concurrency.utils.ts. Pool: `mapConcurrently` as a pool of workers with a
--              shared index; a schedule says which worker goes on next. Chunks:
--              `processInConcurrencyChunks`.
-- Batch        src/modules/shared/batch-processing.service.ts. Chunks: `chunkArray`. Jobs: time
--              limits, retries and chunks on a clock of milliseconds, with the set of active timers
--              passed along. Service: the registry of batches, the history and both shutdowns. The
--              `catch` block of `executeBatch` is left out: `runBatch` turns every error of a job into
--              a row, so that its promise is never rejected.
-- Change       src/modules/change-tracking. Text, Value and Diff:
--              change-tracking-diff.utils.ts and src/utils/proposal-reason.utils.ts. Event: the
--              entities and `buildDiffEvent`. Append: `appendChangeEventWithDetails` over the two
--              tables. Audit: change-tracking-chain-audit.utils.ts, with the replayed state, the
--              tolerated hashes of old events and the audit of all chains in modules of their own.
--              Notify: the queue of change notifications.
-- Lease        src/modules/crawling/browser-lease-manager.service.ts. Slots: who holds a browser and
--              who waits. Tree: `collectSessionTreePids`. Ownership: which lease owns which
--              processes, from `runWithLease` to the end of `closeBrowserSession`.
-- Webhooks     src/modules/webhook. The table, the service's methods and normalizeWebhookUrl; Bulk:
--              `createBulk`; Cleanup: the deletions, the statistics and the jobs of
--              webhook-cleanup.service.ts. Registry has the sequences of
--              calls, Interleaved a round of a deletion with calls in the middle.
-- Cache        src/modules/cache/cache.service.ts: the recent notices in Redis and in the snapshot.
--              Lifetime has the sequences of calls.
-- Notification src/modules/notification/notification-batch.service.ts: the dispatch to webhooks and
--              to web push. Plan: which jobs a batch has, and its run by the batch service. Summary:
--              the sums that go to the record of the batch.
-- ProposalRetry
--              src/modules/crawling/utils/crawling-scheduler-proposal-retry.ts: the queue and its
--              records; Drain: `drainQueue`; Lifetime: the sequences of calls.
-- Errors       src/utils/db-error.utils.ts: what an error of the database says; Kinds: the tests of
--              src/modules/change-tracking/change-tracking.service.ts that tell such errors apart.
--
-- Each stateful part is a record of the service's fields and a function for each handler, up to its
-- `await` or its end; what happens between two handlers is a sequence of calls, a schedule or a step
-- relation.
--
-- Webhooks, Cache and ProposalRetry take each call as a whole: what another call does while one of
-- these waits for the database or for Redis is not part of them. So a round of
-- `cleanupOldInactiveWebhooks` reads its ids and deletes them in one step, where the source waits
-- in between and deletes by id; Webhooks.Interleaved has such a round with other calls in the
-- middle. `gracefulShutdown` is one step as well, without its wait for running batches.
--
-- Parameters. SHA-256 is a function on texts of which nothing is assumed. The database is a
-- parameter of each attempt of an append: the rows that other writers commit between the read and
-- the insert, and a fault that it may raise, given by its kind; its unique indexes on the notice
-- and height and on the hash are written out. The mappers and jobs are functions to promises. The
-- parser of URLs, the order in which the database lists rows, the answers of the archive, of the
-- crawler and of the summaries, the text form of times, and how the attempts of a notification job
-- settle are functions as well; of the order it is assumed that it lists the same rows, and of the
-- text of a time that it reads back. Faults of Redis and removals that the database refuses are
-- flags and tests of each call.
--
-- Bounds and fuel. A text is a list of code units, a number in a snapshot or a detail is a natural
-- number, and a key holds no dot: the archive's snapshots have no others. `chunk_from` has as fuel
-- the length of the array, and with a positive size a round for each item is the most that the
-- loop makes; with size 0 the source's loop does not end, and the model gives none.
-- `process_in_concurrency_chunks` guards the size and has the same fuel. `append_loop` has as fuel
-- the number of attempts, which is the source's own bound. `walk` has one round more than there
-- are rows of processes: each round takes a pid off the stack, and pushes only rows that were not
-- owned before. `decimal` has its own number as fuel. `remove_from` has a round for each
-- id, and `cleanup_from` one more than there are rows: a round that goes on deletes a row at least.
--
-- Not modelled: logging and the Discord bridge; the clock beyond the delays of batches and the ages
-- of webhooks and bills; the queue that makes appends on SQLite take turns; timelines and search,
-- which are database queries; the crawlers and the archive's storage; the requests to Discord and
-- to the push services, the registration of receivers and the options of the notification
-- orchestrator; the summaries; of the cache, the quick keywords, other keys and the health checks;
-- drains that overlap; the database mirror, health checks, controllers and migrations. Of the lease
-- manager, the forced cleanup of processes and the parsing of `ps` are left out; what is seen of a
-- process is given with the step. Other writers of the events only add rows, and a fault of an
-- attempt comes before its commit. The JSON form of the retry queue's notices and the expiry of
-- keys in Redis are left out, and so are errors of the archive's queries in a drain. A time limit
-- of 0 ms fires before a promise that is settled already, where the source's promise would win. A
-- day has 86,400,000 ms in the age of a webhook, where the source counts days of the calendar.
mod Base
mod Promises
pub mod Concurrency
pub mod Batch
pub mod Change
pub mod Lease
pub mod Webhooks
pub mod Cache
pub mod Notification
pub mod ProposalRetry
pub mod Errors
