-- ===== src/ResourceSync.antt =====
-- internal/controller/resourcesync_*.go: the resources of the cluster are watched, their changes
-- queued, batched by a debounce buffer and sent to the MCP server.
pub mod Change
pub mod Client
pub mod Debounce
pub mod Status
pub mod Queue
pub mod Handlers
pub mod Resync
