-- ===== src/Lib.antt =====
-- Two Go services share this repository: contentServer keeps posts and hands their events to
-- consumers, userServer keeps accounts and sessions. This library models the core of both and
-- proves what the services rely on.
--
-- Parts, and how they interact:
-- - Sql: both services work on MySQL in transactions. A transaction is a state (the tables, the
--   server's clock, and a script of what the environment does), a statement is a function on
--   it that the driver may refuse, and `TransactCtx` of the sqlx package is a parameter (`Conn`)
--   with the law that it commits on success unless the commit fails, and else rolls back. A commit
--   that fails gives the driver's error, and its work may be lost or stored: contentServer/docs/worker.md
--   speaks of such commits. Files:
--   Sql.antt, Sql/Table.antt (WHERE, UPDATE, SELECT on lists of rows), Sql/Insert.antt (INSERT under a unique
--   key), Sql/Order.antt (ORDER BY), Sql/Sorted.antt (the first rows in an order),
--   Sql/Outcome.antt (postconditions of transactions), Sql/Frame.antt (parts that a step leaves
--   alone), Sql/Plain.antt (connections that keep the law, for examples).
-- - Strings.antt: what both use of Go's strings, as lists of runes.
-- - Content/Errors.antt, Content/Tables.antt, Content/Ids.antt: the sentinels and wrapping of
--   contentServer/internal/domain/errors.go and internal/event/task.go, the rows of internal/model,
--   and the identifiers of internal/domain/ID.go.
-- - Content/Delivery.antt with Content/Delivery/: the statements of
--   contentServer/internal/model/event_delivery_model.go, one definition each.
-- - Content/Tasks.antt with Content/Tasks/: `Claim`, `Execute`, `ScheduleRetry` and `RecoverExpired`
--   of contentServer/internal/respository/task.go over those statements. A worker claims rows,
--   executes a handler in the transaction that stores the final status, or schedules a retry; the
--   reclaimer returns rows whose lease ran out.
-- - Content/Dispatch.antt with Content/Dispatch/: `FanOut` of internal/respository/dispatch.go and the
--   outbox statements of internal/model/outbox_event_model.go: one delivery for every consumer.
-- - Content/History.antt with Content/History/: any sequence of calls of these five operations.
-- - Content/Cards.antt with Content/Cards/: the handler of PostPublished tasks,
--   internal/taskhandler/post_card.go, and its projection, internal/respository/post_card.go.
-- - Content/Post.antt with Content/Post/: the rules of posts, drafts, revisions and their assets,
--   internal/domain/post.go, post_read.go, postDraft.go, postRevision.go and draft_assets.go.
-- - Content/Removal.antt with Content/Removal/: `DeletePost` of internal/respository/post.go, which applies
--   those rules to the stored post and removes its card, and internal/logic/delete_post_logic.go.
-- - Content/Tags.antt with Content/Tags/: the names of tags, `PrepareTagNames` of internal/domain/tag_name.go.
-- - Content/Drafts.antt with Content/Drafts/: `CreatePost` and `SavePostDraft` of internal/respository/post.go,
--   in Content/Drafts/Body.antt; the assets that a draft shows, the references that are kept of them and the
--   statements of internal/model that they use are in Content/Drafts.antt.
-- - Content/Publication.antt with Content/Publication/: `PublishPost` of internal/respository/publication.go:
--   the transaction is in Content/Publication/Body.antt, with the request of
--   internal/logic/publish_post_logic.go that calls it; its tags are in Content/Publication/Tags.antt, the other
--   rows that it writes in Content/Publication/Rows.antt. Its event is what the dispatcher fans out and the handler
--   of cards reads: Content/Publication/Shown.antt runs that handler on what a publication leaves.
-- - Content/Worker.antt with Content/Worker/: `Worker.execute` of internal/event/worker.go, which executes a
--   claimed task and schedules the retry, and the `TaskController` of internal/event/task.go. A handler
--   that panics returns `none`; the repository itself does not panic. Content/Worker/Pool.antt has the life
--   of the worker and its queue (`Run`, `Submit`, `stopAcceptingAndDrain`, `work`, `finish`) as a step
--   relation, in which the goroutines interleave; the channels `ready` and `spaceAvailable`, which
--   only signal, and the time limits are left out.
-- - User.antt with User/: the sessions of userServer: its tables (internal/model), refresh tokens
--   (internal/logic/token.go), `LoginByPassword` (User/Login.antt: loginbypasswordlogic.go and login.go) with
--   the devices of users (User/Device.antt: user_device.go), `Refresh` (refreshlogic.go), `Logout`
--   (logoutlogic.go), and histories of refreshes and logouts (User/History.antt).
-- - Content/Examples.antt, Content/Examples/, User/Examples.antt and User/Examples/: runs on small tables.
--
-- How the model reads the source:
-- - Numbers are natural numbers. Limits, leases and base delays that are zero or negative are one
--   case in the source and 0 here. The rules of posts and drafts refuse a version or revision number
--   that is the largest uint64, so `version + 1` of a saved draft or a deleted post does not wrap; it
--   wraps where a publication is checked, and so does the refresh counter. Delays stay under ten minutes.
-- - Identifiers, tokens and names are numbers in the order of the column's collation, 0 the empty
--   text; UUIDs go to them by a codec. Texts that are cut or trimmed are lists of runes.
-- - Times are milliseconds, as the columns have them. The clock never goes back; between two
--   statements the script lets any time pass. `time.Now` reads the same clock.
-- - Rows that other transactions have locked are an argument (`skip`) of the SKIP LOCKED reads.
--   Calls are serial: what a transaction reads for update, no other changes until it ends.
-- - `RowsAffected` does not fail. JSON decoding, error texts, random numbers, HMAC, base64 and JWTs
--   are arguments of the definitions that use them.
-- - Every loop runs over a list or over a counter, so nothing here needs fuel.
-- - Callbacks that a repository runs in its transaction are functions of what it gives them. A post
--   that a callback changes in place is a result of the callback.
-- - The unique keys of the schema are checked by the INSERT statements here; its foreign keys and
--   CHECK constraints are among the reasons for which the driver may refuse any statement.
-- - The coordinates of a cover's focus are opaque numbers, which are only carried along.
-- - Columns that nothing reads (created_at, updated_at of deliveries and cards) are left out.
--
-- Not modelled: the loops of internal/event that call the task repositories (scheduler, dispatcher,
-- reclaimer, pipeline), the validation of documents, the requests that create and save drafts, login
-- by phone, registration and the change of passwords, the HTTP layers, configuration, logging and generated code.
pub mod Prelude
pub mod Strings
pub mod Sql
pub mod Content
pub mod User
