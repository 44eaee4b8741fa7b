-- ===== src/Tests.antt =====
-- Runs of the theorems on small inputs, one module for each part of the program.
mod Limits
mod Events
mod Keys
mod Persistence
mod Batches
mod Retries
mod Scans
mod Discovery
mod Solutions
mod Knowledge
mod Controllers
