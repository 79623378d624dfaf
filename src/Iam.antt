-- ===== src/Iam.antt =====
-- internal/iam: policies and their evaluation.
pub mod Types
pub mod Arn
pub mod Glob
pub mod Conditions
pub mod Match
pub mod Evaluate
pub mod Service
mod Examples
mod ServiceExamples
