-- ===== src/Service.antt =====
-- internal/service: the business rules over the repositories and the cache.
pub mod Cursor
pub mod Upload
pub mod Views
pub mod Feed
pub mod Social
pub mod Interaction
pub mod Post
pub mod Auth
pub mod Profile
