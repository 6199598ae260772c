-- ===== src/Api.antt =====
-- internal/api: the store that the controllers fill and the REST API reads.
pub mod Store
pub mod Server
