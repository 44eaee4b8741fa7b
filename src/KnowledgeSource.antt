-- ===== src/KnowledgeSource.antt =====
-- internal/controller/gitknowledgesource_*.go: documents of a Git repository are kept in the knowledge base
-- of an MCP server.
pub mod Patterns
pub mod Schedule
pub mod Git
pub mod Document
pub mod Client
pub mod Source
pub mod Sync
pub mod Reconcile
