-- ===== src/Lib.antt =====
-- Verification of beskar, an artifact registry whose plugins serve package repositories.
--
-- The registry (internal/pkg/beskar) knows plugins and the nodes that run them. It routes the
-- requests for a repository and the events of pushed manifests to one node, which rendezvous hashing
-- chooses (pkg/rv). On its node, a plugin keeps one handler for each repository, in a table
-- (internal/pkg/repository/manager.go); the handler has a queue of events and a loop that processes
-- them (internal/pkg/repository/handler.go). The yum plugin (internal/plugins/yum/pkg) stores each
-- event in a status database before it queues it, and writes the packages of a repository to its
-- databases; an API call changes the properties of the repository.
--
-- The files:
-- - Prelude and its children: the names of the libraries, Boolean tests, lists, Go's maps as
--   association lists (Dict), stable sorting (Sort), the outcomes of an operation on channels
--   (Outcome: it completes, blocks or panics) and a value with an `error` (Result).
-- - Event: pkg/api/event/v1/event.pb.go.
-- - Repository/Queue: the queue of a RepoHandler; its child Delivery has the senders and the loop as
--   a step relation, Wakeups a run of it.
-- - Repository/Artifacts: SyncArtifact, SyncArtifactResult and SyncArtifactReset, with channels on a
--   heap, since a waiter keeps its channel when the table loses it.
-- - Repository/Manager: Manager.Get and remove with any number of callers, as a step relation. A
--   call is in one of six places, a handler in one of seven phases; `Started`, `Stop` and the
--   handler's cleanup are steps of the phases.
-- - Rv: NodeHash with Add, Remove, Get and getNodes.
-- - Registry/Plugins: pluginManager and plugin of internal/pkg/beskar/plugin.go.
-- - Yum/Sql: the course that the methods of yumdb share. Yum/Status, Yum/Packages and Yum/Metadata:
--   status.go, repository.go and metadata.go of internal/plugins/yum/pkg/yumdb, each method by its
--   name in snake case.
-- - Yum/Handler, Yum/Properties and Yum/Loop: handler.go of internal/plugins/yum/pkg/yumrepository,
--   without processEvents, which is Yum/Events. Yum/Manifests: package.go and database.go,
--   Yum/Extra: metadata.go. Yum/Api:
--   CreateRepository, UpdateRepository and GetRepository of api.go, Yum/Api/Sync: SyncRepository and
--   SyncRepositoryWithURL, Yum/Api/Removal: the calls that read and remove packages,
--   Yum/Api/Deleting: DeleteRepository.
-- - Yum/Deletion: the walk and the workers of DeleteRepository as a step relation. Its bound of a
--   hundred workers is the source's.
-- - Yum/Mirror: internal/plugins/yum/pkg/mirror/syncer.go, without the walk over the packages.
-- - Yum/Reposync: the packages of repositorySync in sync.go of yumrepository, with the walk of
--   DownloadPackages in internal/plugins/yum/pkg/mirror/syncer.go, as a step relation; its children
--   have the invariant (Invariant, Preserved, Reached) and what it gives. Its child Whole has the
--   metadata that repositorySync pushes, and updateReposyncDatabase.
-- - Sqlite: internal/pkg/sqlite; its child Users has the methods that use a database as steps.
-- - Static/Files and Static/Manifests: internal/plugins/static/pkg/staticdb/repository.go, and file.go
--   with database.go of internal/plugins/static/pkg/staticrepository.
-- - Mirror/Files: internal/plugins/mirror/pkg/mirrordb/repository.go. Mirror/Plan: plansync.go and the
--   database calls of database.go in internal/plugins/mirror/pkg/mirrorrepository; its child Steps
--   has Sync and its workers as a step relation.
-- - The modules called Examples hold concrete states and instances of the theorems on them.
--
-- How the code is read:
-- - What a mutex guards is one step, but for packageMutex of a sync, whose section is several. A
--   channel of capacity 1 is whether it holds its token, or an optional value; a receive from an
--   empty open channel, and a send to a full one, is `blocked`.
-- - A hash value is a number that is compared and never computed with, so no width is fixed. Times
--   are arguments. Every loop is a recursion on a list, so there is no fuel.
-- - Go's error is an optional text. Logging, the log database and files on disk are left out.
-- - Code outside the repository is an argument: murmur3, SQLite and its driver (whether a database
--   opens and a statement fails), protobuf, gob, URLs, OpenPGP, crypto/md5, the OCI client, RPM
--   reading, semver, the Rego engine and the network. IsFormats states what the API relies on: gob
--   gives back what it wrote, writes no empty text, and the empty text is no key ring.
-- - filepath.Join of a repository name and "packages@" or "repodata@" with a digest is
--   written as a concatenation, which it is for a name that is already clean.
--
-- Not modelled: the function around the packages of repositorySync, which may return while workers
-- are alive that still change the status; Go's stop of a program with a data race; the generation of
-- repodata, the ostree plugin, the handlers and the API of the static and of the mirror plugin,
-- gossip, the command line clients, generated HTTP and protobuf code, and configuration.
pub mod Prelude
pub mod Event
pub mod Repository
pub mod Rv
pub mod Registry
pub mod Yum
pub mod Mirror
pub mod Sqlite
pub mod Static
