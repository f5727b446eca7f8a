-- ===== src/Lib.antt =====
-- NovaNAS: a storage appliance whose server, in Go, keeps schedules, jobs and access rights and drives ZFS
-- on its host. The parts modelled here and how they meet:
--
-- - Scheduler (internal/host/scheduler). Scheduler/Cron is cron.go: Parse has the parser, Cron itself the
--   matching, the search for the next minute and the firing test. Scheduler/Retention and
--   Scheduler/SnapTime are retention.go: the keep set, and the time in a snapshot's short name.
--   Scheduler/Manager is manager.go: the two passes of a tick, which use all of these. A pass is the list of
--   the calls it makes; what the calls of the host and the database answer is the argument `Host`.
-- - Replication (internal/replication). Replication/Retention is retention.go. Replication/Store is the
--   in-memory store and locker of manager.go with the job and run types of replication.go, and
--   Replication/Manager the manager's operations on them. `Run` is cut in two at its call of the backend, so
--   that other calls can come between; backends, clock and new ids are arguments.
-- - Auth (internal/auth/rbac.go): permissions, the shipped role map and the check.
-- - Plugins (internal/plugins). Plugins/Dependencies is dependencies.go, with the version library, the
--   marketplace and the installed plugins as arguments; Plugins/Needs is needs.go, over a provisioner;
--   Plugins/Marketplaces is the search of marketplaces.go, with its in-memory store and the check of packages;
--   Plugins/Router is router.go; Plugins/Grammar and Plugins/Validate are the checks of manifest.go.
--   Plugins/Package is ui_assets.go: the unpacking of packages and the files of user interfaces.
--   Plugins/Lifecycle is lifecycle.go, which uses Needs, Router and Dependencies: `World` is the store, the
--   mounts, the user interfaces, the disk and what exists outside, and `Engine` has the marketplaces, the
--   parsers, the unpacking, the provisioner, the deployer and the failures of the store. An operation is one
--   step on the world; `install` is given the names whose locks the calls around it hold.
-- - Jobs (internal/jobs): Jobs/Dispatcher is dispatcher.go, with the rows of jobs and the queue of tasks;
--   Jobs/Worker the state of a row under the handlers of worker.go, recover.go and the statements of
--   internal/store/queries/jobs.sql. ScrubPolicy (internal/scrubpolicy/scrubpolicy.go) dispatches scrubs
--   through the dispatcher, and uses the scheduler's cron expressions.
-- - Krb5Sync (internal/krb5sync): users of Keycloak are brought to the Kerberos KDC, which is the argument
--   `Kdc`. Principals has the names that are expected and the tests for names, Krb5Sync itself a pass and what it
--   records.
-- - Csi (internal/csi): the storage driver for Kubernetes, over the appliance's API, which is the argument
--   `Client`. VolumeId is volume_id.go; Volumes, Controller and Maintenance are controller.go.
-- - NotifyCenter (internal/notifycenter): recording and the bus in NotifyCenter itself, the users' side in Listing
--   and the polls in Aggregator, over the statements of internal/store/queries/notifications.sql that write.
-- - Names (internal/host/zfs/names/names.go): the validators of ZFS names, against a grammar.
-- - Calendar: the fields of Go's `time.Time`, for the scheduler, replication and scrub policies, and `Clock`, what
--   package `time` makes of the times of a location.
-- - Base: lists, numbers, texts, maps, sorting and results that the parts share.
--
-- Bounds. A Go `int` is an integer whose addition wraps at 64 bits where the code adds without a bound
-- (`add_int`, in the loop over a range of a cron field). That loop runs on `range_fuel` rounds, 200, and the
-- search for the next minute on `next_fuel` rounds, 5,391,361; that these are enough is proved of the first for every
-- text, and of the second for a location with a fixed offset. Cron (cron.go) has the location as an argument; the
-- passes of Scheduler/Manager and ScrubPolicy, and the times in snapshot names, are those of a process in UTC, while
-- the source's default is the local zone. `install` runs on
-- the depth of its nested calls as fuel, for which the rank of a plugin among its dependencies is enough. Texts are
-- lists of code points, or of bytes in Names; the bucket keys of the retention code, texts of digits in
-- the source, are the numbers that they write. Sorting is stable; the source's `sort.Slice`, which leaves
-- the order of equal times open, is taken to be stable too. Sizes of volumes are
-- 64-bit integers that wrap where the code multiplies or adds them. Paths are the lists of their components.
--
-- Not modelled: the HTTP handlers, the database, the wrappers of the host's commands with their parsers, the requests to
-- marketplaces, Keycloak and the appliance's API, the node side of the storage driver, the virtual machines
-- and workloads on Kubernetes, timers and backoff, logging, changes of the offset in the passes and in snapshot
-- names, and the words of error messages: these call other programs, print for them or parse what they print.
mod Base
pub mod Auth
pub mod Calendar
pub mod Csi
pub mod Jobs
pub mod Krb5Sync
pub mod Names
pub mod NotifyCenter
pub mod Plugins
pub mod Replication
pub mod Scheduler
pub mod ScrubPolicy
mod Tests
