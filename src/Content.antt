-- ===== src/Content.antt =====
-- The parts of `WorkflowContent` (runtime/hetdesrun/persistence/models/workflow.py).
pub mod Names
pub mod Loops
pub mod LinkEnds
pub mod Inputs
pub mod Outputs
pub mod OuterLinks
pub mod Validate
