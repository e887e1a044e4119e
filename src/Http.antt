-- ===== src/Http.antt =====
-- What of the backend stands between a handler and the network: common/interceptors,
-- common/filters and common/middleware of src/.
pub mod Json
pub mod Envelope
pub mod Replies
pub mod Tests
