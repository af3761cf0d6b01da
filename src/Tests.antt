-- ===== src/Tests.antt =====
-- Runs of the models, and the theorems at concrete data.
mod ConfigRuns
mod BaseRuns
mod EventRuns
mod ServerRuns
mod CallRuns
mod LogRuns
mod TraceRuns
mod ChainRuns
mod ConstructRuns
mod MailboxRuns
mod ManagerRuns
