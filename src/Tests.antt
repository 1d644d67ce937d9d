-- ===== src/Tests.antt =====
-- Concrete runs: the theorems applied to a small casino with one wallet and one provider.
mod Data
mod StoreRuns
mod DomainRuns
mod EdgeRuns
mod FlowRuns
mod AuthRuns
mod PageRuns
mod EngineRuns
mod BankRuns
