-- ===== src/Tests.antt =====
-- Concrete systems: the program's functions are run on them, and the theorems applied to them.
pub mod Worlds
mod SettleExamples
mod SelExamples
mod MachineExamples
mod TableExamples
mod SwitchExamples
mod LiveExamples
mod ReportExamples
mod MngrExamples
