-- ===== src/Transport/Ws.antt =====
-- internal/transport/ws: the hub that passes events on to websocket clients.
pub mod Hub
pub mod Handler
