-- ===== src/ToolLoop.antt =====
-- src/tool-loop: the loop that lets a model call tools.
pub mod Drift
pub mod Calls
pub mod Verbs
pub mod Engine
pub mod Run
pub mod Allowance
pub mod Termination
pub mod Repeats
pub mod Answers
pub mod Survival
