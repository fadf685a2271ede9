-- ===== src/Examples.antt =====
-- Concrete benches for the theorems of the other modules, and the theorems at concrete inputs.
mod Bench
mod Drive
mod HubExamples
mod WorkerExamples
mod EngineExamples
mod RampExamples
mod ControlExamples
mod ProtectionExamples
mod PlanExamples
mod ReplyExamples
mod TransportExamples
mod PairExamples
