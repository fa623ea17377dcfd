-- ===== src/Rewriter/Instrument.antt =====
-- `instrument` of sdk/typescript/rewriter.ts
pub mod Pass
pub mod Parts
pub mod Sections
pub mod Body
pub mod Code
pub mod Main
pub mod Triple
pub mod Keeps
pub mod Reads
pub mod Indexed
pub mod Reference
pub mod Alike
pub mod Spans
pub mod Rewriting
pub mod Tests
