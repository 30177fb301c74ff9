-- ===== src/AutoManage.antt =====
-- autoManage: the monitor that follows the trace files of agents and shows their state.
pub mod Text
pub mod Tailer
pub mod Parser
pub mod Status
pub mod Store
pub mod Bus
pub mod Ingest
pub mod Dashboard
