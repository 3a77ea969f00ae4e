-- ===== src/Protocol.antt =====
-- src/backend: what stands between the transport and the handlers.
pub mod DriveLetter
