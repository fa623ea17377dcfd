-- ===== src/Rewriter/Writer.antt =====
-- `class Writer` and `leb` of sdk/typescript/rewriter.ts: output collected as references to input
-- ranges plus small encoded runs.
mod Defs
pub mod Content
pub mod Encoding
pub mod Slots
unfoldable pub use Defs.*
