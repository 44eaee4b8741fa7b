-- ===== src/CapabilityScan.antt =====
-- internal/controller/capabilityscan_*.go: the capabilities that the MCP server has are kept in step
-- with the resource types of the cluster.
pub mod Buffer
pub mod Filter
pub mod Discovery
pub mod Startup
pub mod Client
