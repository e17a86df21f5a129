-- ===== src/Lib.antt =====
-- A model of the panel4wp server panel and of what makes it correct.
--
-- The program is a panel (cmd/panel), which a single administrator uses in a browser, and a worker
-- (cmd/worker), which holds the Docker socket and owns the site directories. Both share the data model
-- and its validation (internal/core).
--
-- Where the parts are:
--   Prelude, Strings, Float: shared types, lists, integers, the parts of Go's strings, strconv,
--     unicode/utf8 and encoding/hex that the program calls, and float64.
--   Core: internal/core. Ids (ValidID, ValidBackupID, NewID, NewBackupID), Domain (NormalizeDomain),
--     RelativePath (ValidRelativePath and filepath.Clean), Model (the records), Validate
--     (ValidateSite, ValidateBackupPolicy, Resources.Validate, ResourcePlan.Validate, ResourceLimits),
--     Capacity (HostCapacity.Check).
--   Files: files that are replaced whole (atomicConfig, writeJSON).
--   Store: internal/store. Store (Get, Put, Delete, List), Plans (the resource plans).
--   Audit: internal/audit (clean, Log.Append, Log.List).
--   Settings: internal/settings (ValidateMail, Save, Load).
--   SecurityPolicy: internal/securitypolicy, Active.
--   Worker.Docker: the containers and the commands of fenceQuotaSite and quotaContainers, Jobs
--     (removeOwnedJobs), Tools (removeStaleDatabaseTools).
--   Worker.Compose: composeResources and configuredResources of cmd/worker/resources.go.
--   Worker.Receipts: cmd/worker/runtime.go. Receipts (saveOperation, loadOperation, trackOperation and
--     the function that it returns), Quiesce (quiesceSite), Recover (recoverInterruptedJobs), Snapshot
--     (runtimeSnapshot).
--   Worker.Quota, the fence: cmd/worker/quota_restart.go. Restart (quotaRestartCompose), Intent
--     (readGuardJSON, loadQuotaIntent, saveQuotaIntent), Guard (loadQuotaGuard, verifyQuotaStorage),
--     Fence (fenceQuotaSite), Preflight (ensureQuotaRestartCompose, quotaPreflight, finishQuotaWrite),
--     Start (startQuotaSite).
--   Worker.Quota, the registry: cmd/worker/quota_registry.go. Marker (quotaMarked), Inventory
--     (storageInventory), Ledger (validateQuotaLedger), Search (the loop for a free project), Load
--     (loadQuotaLedger), Reserve (reserveQuotaProject), Reserve.Again (calls of it in sequence).
--   Panel: cmd/panel. Panel (record, truncateText), Tracked (callTracked), Reconcile (reconcileRuntime),
--     Backups (pruneScheduledBackups) and Backups.Schedule (performBackup, runScheduledBackups).
--     Login (loginAllowed, authenticated, checkCSRF), Forms (cmd/panel/resources.go). Handlers:
--     Safety (updateSite, restoreSite), Change (backupSite, saveBackupSchedule, deleteBackup,
--     applySiteMail), Create (createSite), Actions (siteAction).
--   Tests: runs on concrete inputs.
--
-- How the code is read. A string is the list of its bytes. `int` and `int64` are integers, with the
-- wrap-around of 64 bits written out where a result may leave the range. A float64 is NaN, an infinity or
-- a whole number of billionths. A time is a whole number of seconds after the zero time; an interval of
-- hours is added to it as a time.Duration, whose nanoseconds wrap in 64 bits. An `error` is a constructor
-- of the part's own error type. Random bytes, the clock, Docker, the file system, JSON and the Unicode
-- case tables are arguments; a write by atomicConfig stops before its rename, after it, or not at all.
--
-- The Docker command is a record of functions on the state of its daemon; what is documented of them is
-- the record DockerLaws. Calls run one after another: another actor's commands between two of them are
-- not modelled.
--
-- Fuel: the search for a free project identifier has one round more than there are occupied identifiers,
-- which is proved to be enough. The loop of pruneScheduledBackups has a round for each number of
-- its fuel; a fuel above the number of scheduled copies is proved to be enough.
--
-- The panel's mutex opsMu is held by one operation at a time, so an operation is one step on the file of the
-- sites; the texts of the store's errors are left out of what is recorded.
--
-- Not modelled: the HTML views, the translations, the C helpers, and the HTTP layer.
pub mod Prelude
pub mod Strings
pub mod Float
pub mod SecurityPolicy
pub mod Audit
pub mod Settings
pub mod Files
pub mod Core
pub mod Store
pub mod Worker
pub mod Panel
mod Tests
