-- ===== src/Transport.antt =====
-- apps/api/internal/transport.
pub mod Grpc
pub mod Ws
