-- ===== src/Remediation.antt =====
-- internal/controller/remediationpolicy_*.go and persistence.go: events are matched against policies,
-- limited, and handed to the MCP server.
pub mod Owner
pub mod RateLimit
pub mod Cooldowns
pub mod Persistence
pub mod Policy
pub mod Events
pub mod PolicyStatus
pub mod Notifications
