-- ===== src/Gateway.antt =====
-- Uploads of internal/gateway: sessions that resume, uploads in parts, and the storing of what they give.
pub mod Objects
pub mod Sessions
pub mod Requests
pub mod Resumable
pub mod Invariant
pub mod Chunks
pub mod Overlap
pub mod Multipart
mod Examples
mod PartExamples
