-- ===== src/Lib.antt =====
-- dot-ai-controller: the controllers that watch a Kubernetes cluster, keep an MCP server told of its
-- resources and of their types, and ask it to remedy what events report.
--
-- Resource sync (internal/controller/resourcesync_*.go). Handlers of informers put a change of each
-- object in a queue; a buffer keeps the last change of each id, and sends what is pending at every tick
-- by a client that retries. ResourceSync/Change.antt has the handlers' changes (`buildResourceID`,
-- `extractResourceData`), ResourceSync/Debounce.antt the buffer (`record`, `flush`,
-- `requeueChangesFromMap`, `Run`), ResourceSync/Client.antt the client (`send`, `sendWithRetry`). The
-- select loop of `Run` is a list of signals, changes and ticks in the order in which they are received;
-- a flush is in two parts, so that changes may be recorded while the request is made.
-- ResourceSync/Handlers.antt has what the informers hand over, ResourceSync/Queue.antt the queue between
-- them and the buffer (`trySendChange`, `stopWatcher`) as steps of the goroutines, ResourceSync/Status.antt
-- the status and the backoff of its writes (`updateStatus`, `sanitizeStatus`), ResourceSync/Resync.antt the
-- initial and the periodic resync as a list of ticks.
--
-- Capability scan (internal/controller/capabilityscan_*.go). At the start the resource types of the
-- cluster are listed, filtered and compared with the server's capabilities; later changes of types go
-- through a buffer. CapabilityScan/Discovery.antt lists (`listAllResourceIDs`), CapabilityScan/Filter.antt
-- filters and compares (`matchesPattern`, `computeCapabilityDiff`), CapabilityScan/Startup.antt
-- reconciles (`performStartupReconciliation`) and writes the status, CapabilityScan/Buffer.antt is the
-- buffer, CapabilityScan/Client.antt the client of the server (`ListCapabilityIDs`, `sendWithRetry`).
--
-- Remediation (internal/controller/remediationpolicy_*.go, persistence.go). An event is matched against
-- the selectors of the policies, checked against the cooldown of its object and the limits of the policy,
-- marked, and handed to the server. Remediation/Policy.antt matches, Remediation/Events.antt is
-- `reconcileEvent` and `processEvent`, Remediation/Owner.antt finds the owner under whose key events are
-- counted, Remediation/RateLimit.antt is `isRateLimited`, Remediation/Cooldowns.antt the cooldowns of
-- objects, Remediation/PolicyStatus.antt the statistics, Remediation/Persistence.antt and its Sync
-- the cooldowns kept in ConfigMaps, Remediation/Notifications.antt the settings of the notifications and
-- the condition that tells whether they work.
--
-- Git knowledge sources (internal/controller/gitknowledgesource_*.go). A reconciliation clones the
-- repository, lists the files that changed since the last commit or all of them, filters them, sends each
-- to the server as a document, records the progress and asks for the next sync of the schedule. The status
-- and its conditions are in KnowledgeSource/Source.antt, `Reconcile` and `handleDeletion` in
-- KnowledgeSource/Reconcile.antt, `doSync` in KnowledgeSource/Sync.antt with the loop over the files in
-- its Files and the whole in its Run, the Git client in KnowledgeSource/Git.antt, the patterns in
-- KnowledgeSource/Patterns.antt, the schedules in KnowledgeSource/Schedule.antt, the document URIs in
-- KnowledgeSource/Document.antt, the client of the server in KnowledgeSource/Client.antt. Retry.antt is the
-- loop of attempts of this client and of that of the capability scan, Retry/Backoff.antt the wait between
-- them, Secret.antt the reading of a value from a Secret.
--
-- The shutdown tracker (internal/shutdown/shutdown.go) is Shutdown.antt: the tracker, the readiness check,
-- and the goroutine that handles signals as a step relation.
--
-- Solutions (internal/controller/solution_controller.go). Solution.antt has the health of the resources
-- (`checkResourceHealth`), the status that an update writes, and the owner references. Status.antt is the
-- Ready condition that all controllers put, Status/Update.antt the loop with which the policy and the
-- solution controllers write a status.
--
-- The modules below a component's file prove what is listed below of it; those of Tests.antt run the
-- theorems on small inputs.
--
-- A Go map is an association list (Prelude/Map.antt), and a string a list of bytes
-- (Prelude/Strings.antt). Times are nanoseconds as natural numbers, but the
-- wait between attempts is an int64 as a word of 64 bits; an int64 counter is a number below
-- 2^64 that wraps around. The Kubernetes API, HTTP, JSON, regular expressions, formatted messages and
-- clocks are arguments, as are go-git, doublestar and cron. The retry loops take the number of retries
-- that the code configures, 3 by default, and run on it: no other fuel is used.
--
-- Not modelled: locks and goroutines, but for the interleaving of a flush with new changes, the queue of
-- changes and the handling of signals; the order in which Go iterates over a map; logging; a file limit
-- below zero; the discovery of resources and the registry of watchers; the MCP request of a remediation,
-- the messages to Slack and Google Chat, and the manager.
pub mod Prelude
pub mod Status
pub mod ResourceSync
pub mod CapabilityScan
pub mod Remediation
pub mod Solution
pub mod Retry
pub mod Secret
pub mod KnowledgeSource
pub mod Shutdown
pub mod Tests
