-- ===== src/Bench.antt =====
-- Tools that drive a running server.
pub mod LoadTest
