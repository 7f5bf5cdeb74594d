-- ===== src/Handler.antt =====
-- internal/handler: the handlers of the requests, over the services. A handler binds its parameters, calls
-- a service, and ends in `OK` or `Fail`.
pub mod Params
pub mod Auth
pub mod Feed
pub mod Interaction
pub mod Post
pub mod Social
pub mod Upload
pub mod Refuses
