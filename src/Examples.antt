-- ===== src/Examples.antt =====
-- Runs of the code and of the theorems on concrete inputs.
mod CodecRuns
mod TextRuns
mod KeyRuns
mod MemoryRuns
mod TableRuns
mod SeekRuns
mod RoundRuns
mod NodeRuns
mod HarnessRuns
mod PortRuns
mod BackgroundRuns
mod FileRuns
