-- ===== src/Compile.antt =====
-- The step-tracked compiler of a TasteKit workspace:
-- TasteKit/tastekit/packages/core/compiler/compiler.ts and derivation.ts.
pub mod Derivation
pub mod Steps
pub mod Run
pub mod Resume
