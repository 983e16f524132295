-- ===== src/Tests.antt =====
-- Runs at concrete inputs, and each theorem of the library at inputs that meet its hypotheses.
pub mod Samples
pub mod CodecRuns
pub mod RingRuns
pub mod LockRuns
pub mod ViewRuns
pub mod ProcessRuns
pub mod SessionRuns
pub mod SharedRuns
pub mod WindowsRuns
pub mod LedgerRuns
pub mod HandoffRuns
pub mod MessageRuns
pub mod DuplexRuns
