-- ===== src/Client.antt =====
-- frontend/src: the store of the single-page application and its requests to the backend.
pub mod State
pub mod Actions
pub mod Mirror
pub mod Query
pub mod Headers
pub mod Reauth
pub mod Endpoints
pub mod Sockets
pub mod Events
pub mod Tests
