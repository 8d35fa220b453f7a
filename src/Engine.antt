-- ===== src/Engine.antt =====
-- apps/api/internal/engine, a module for each file or part of one.
pub mod Types
pub mod Breaker
pub mod Redis
pub mod Keys
pub mod Spec
pub mod Script
pub mod Codec
pub mod Router
pub mod Store
pub mod Service
pub mod Events
pub mod Dispatcher
