-- ===== src/Dto.antt =====
-- src/web/dto.rs: the documents that the browser UI reads.
pub mod Capability
pub mod Status
pub mod Points
pub mod Redaction
