-- ===== src/Tests.antt =====
-- Runs of the model on concrete inputs, and the theorems at inputs that meet their hypotheses.
pub mod Compiling
pub mod Monitoring
pub mod Learning
pub mod Skills
pub mod Interviews
pub mod Memories
pub mod Artifacts
