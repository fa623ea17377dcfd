-- ===== src/Limits.antt =====
-- sdk/typescript/limits.ts: the resource limits and the checks of a request before any guest runs.
pub mod Utf8
pub mod Paths
pub mod Resolve
pub mod Mounts
pub mod Request
mod Tests
