-- ===== src/Rewriter.antt =====
-- sdk/typescript/rewriter.ts: the engine-free rewriting of WASI command modules.
pub mod Reader
pub mod Writer
pub mod RoundTrip
pub mod Bounds
pub mod Memory
pub mod Types
pub mod Checks
pub mod Instrument
mod Tests
