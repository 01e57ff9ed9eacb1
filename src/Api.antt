-- ===== src/Api.antt =====
-- apps/api/src: the services, the guards and the WebSocket hub of the API server.
pub mod Platform
pub mod FileService
pub mod JobService
pub mod AuthService
pub mod ApiKeyService
pub mod Guards
pub mod WsManager
pub mod Config
pub mod Schemas
pub mod Routes
pub mod Subscriber
