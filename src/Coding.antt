-- ===== src/Coding.antt =====
-- src/coding: the parts of the coding arm that decide.
pub mod MergeGate
pub mod Arm
pub mod SelfMod
pub mod Service
pub mod Deploy
