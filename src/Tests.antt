-- ===== src/Tests.antt =====
-- Runs of the theorems at concrete logs, engines and queues.
mod Samples
mod Texts
mod LogRuns
mod RaftRuns
mod QueueRuns
mod MessageRuns
mod WorkRuns
mod EmitterRuns
