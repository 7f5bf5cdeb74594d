-- ===== src/Repository.antt =====
-- internal/repository: the statements that each repository sends, over the database service `Sql`.
pub mod Interaction
pub mod Outbox
pub mod Post
pub mod User
pub mod Social
