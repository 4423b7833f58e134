-- ===== src/Tests.antt =====
-- The theorems at concrete inputs, and runs of the definitions.
mod Data
mod CodecRuns
mod StoreRuns
mod WriterRuns
mod ReaderRuns
mod ServiceRuns
mod ConsoleRuns
mod ServerRuns
mod SpecRuns
mod LiveRuns
mod MachineRuns
mod StartRuns
mod ViewRuns
