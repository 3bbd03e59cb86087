-- ===== src/Lib.antt =====
-- Models and theorems for the services of immich-go-backend, a photo server in Go.
--
-- The program answers gRPC (and REST through a gateway) from services over PostgreSQL. Each
-- service of internal/ parses the texts of a request, checks the caller's rights, and runs the
-- statements of internal/db/sqlc one by one. This library models eight of them.
--
-- Queue: the in-memory job queues of internal/queue/service.go. A service is a record with the
--   maps of queues and of jobs and a heap: the maps hold addresses, since the Go maps share the
--   `*Job` values. Queue/Server.antt models the handlers of internal/server/queue.go and
--   `requireAdmin` (internal/server/utils.go). Queue/Counts, Queue/Invariant and Queue/Histories
--   relate the counters to the jobs, Queue/Effects and Queue/Paging state what single operations
--   do, and Queue/Server/Guards what the handlers refuse.
-- Db: the tables `assets`, `asset_stack`, `albums`, `albums_assets_assets`,
--   `albums_shared_users_users`, `shared_links`, `shared_link__asset`, `workflows` and
--   `workflow_executions`, the ids of `users` and the sizes in `exif`
--   (internal/db/sqlc/models.go, sqlc/schema.sql), with the statements on them
--   (internal/db/sqlc/queries.sql.go) that the services below use: Db/Assets, Db/Stacks,
--   Db/Albums, Db/Links, Db/Activity, Db/Workflows. A statement either runs as a whole or fails
--   by an outage; `outages` lists which of the statements to come fail, so a theorem for all
--   databases is for all patterns of failure. Statements commit one by one, as the services open
--   no transaction. Db/Triples has rules for what a sequence of statements keeps, Db/Rows and
--   Db/Owned facts on tables with a key.
-- Trash: internal/trash/service.go, and internal/trash/server.go in Trash/Server.antt.
--   Trash/Requests has its operations as data, Trash/Ownership, Trash/Isolation and
--   Trash/Histories are on whose rows they change, Trash/Accounting and Trash/Totals on what
--   they count, Trash/Recovery on trashing and restoring one asset.
-- Stacks: internal/stacks/service.go. Stacks/Coherence, Stacks/Statements, Stacks/Writes,
--   Stacks/Rows, Stacks/Checks and Stacks/Operations lead to Stacks/Requests, on whose rows the
--   operations change; Stacks/Deletion is on when DeleteStack succeeds and what it leaves.
-- SharedLinks: internal/sharedlinks/service.go. SharedLinks/Attachments, SharedLinks/Writes (the
--   statements) and SharedLinks/Operations lead to SharedLinks/Requests, on the operations as
--   data; SharedLinks/Access and SharedLinks/Calm are on who gets assets by a key,
--   SharedLinks/Updates on what an update cannot remove.
-- CalendarHeatmap: internal/calendarheatmap/service.go. CalendarHeatmap/Days is on the grouping
--   by day, CalendarHeatmap/Counts on the map of counts, CalendarHeatmap/Series on the loop over
--   the days, CalendarHeatmap/Replies on `Get` as a whole.
-- Login: the limiter of internal/auth/rate_limiter.go and the checks of `Login` in
--   internal/auth/service.go up to the reset of the limiter. A call is two steps, `login_begin`
--   up to the answer of the limiter and `login_finish` from there, and the steps of concurrent
--   calls interleave. Login/Limits is on the guesses that get past the limiter, Login/Keys on the
--   entries of different keys.
-- Workflows: internal/workflow/service.go. Workflows/Operations has the operations as requests
--   and says what they keep where their statements keep it; Workflows/Statements and
--   Workflows/Requests use it for the consistency of the rows, Workflows/Histories for a
--   workflow that is disabled. Workflows/Disabled is on a single trigger after
--   SetWorkflowEnabled, Workflows/Runs on what a single run records, Workflows/Listing on the pages of runs; Workflows/Reading is on
--   the JSON of a row.
-- Downloads: internal/download/service.go. Downloads/Access is on what a user can download,
--   Downloads/Names on the loop for an unused name, Downloads/Archives on the names in an
--   archive.
-- Base: what the other modules share.
--
-- Functions keep their Go names in snake_case: `MoveAssetToTrash` is `move_asset_to_trash`. The
-- loops over lists are structural recursions. The
-- bounds of a page of jobs wrap around like Go's `int`, and a count that leaves the 32 bits of
-- its column makes the statement fail. The loop of the heatmap over dates has a bound on its
-- rounds, one more than the days of the window, and gives no reply where it has not ended by
-- then; that of downloads for an unused name has two rounds more than there are names in use.
--
-- `uuid.Parse` and `UUID.String` are parameters (`UuidLib`), and so are `json.Marshal` of a
-- job's payload, the JSON of workflows (`JsonLib`), bcrypt (`BcryptLib`), the text functions on
-- an email, the query of a user, the random key of a shared link, the layout of dates
-- (`DateLib`), the names and the storage of files (`DownloadLib`), and the ids of new rows. A
-- UUID is its 128 bits as a number. Errors keep their message and lose the wrapped cause. Left
-- out: spans, metrics, logging, contexts and their cancellation, the mutex of the queues (its
-- methods run one after another), the columns that no statement above reads or writes, and the
-- times in replies. Two services that run at the same time on one database are not modelled. The
-- other services, the REST gateway, storage, media processing and the generated code are not
-- modelled.
pub mod Base
pub mod CalendarHeatmap
pub mod Db
pub mod Downloads
pub mod Login
pub mod Queue
pub mod SharedLinks
pub mod Stacks
pub mod Trash
pub mod Workflows
