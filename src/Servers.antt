-- ===== src/Servers.antt =====
-- mi_so_completo/src/servers.c: simulated servers, their file systems and the operator's session.
pub mod Types
pub mod Audit
pub mod Session
pub mod Lookup
pub mod Lifecycle
pub mod Setup
pub mod Files
pub mod Apache
pub mod Tick
pub mod Command
pub mod Notices
pub mod Fits
pub mod Steps
pub mod Kept
pub mod Bounds
pub mod Room
pub mod Distinct
pub mod Names
pub mod Access
pub mod Recovery
pub mod Search
pub mod Contents
pub mod Log
pub mod Loads
