-- ===== src/Tests.antt =====
-- A database, a cache and the other services in memory, which satisfy the laws, and runs of the program on
-- them.
pub mod Memory
pub mod Runs
pub mod Feeds
pub mod Tokens
pub mod Events
pub mod Http
pub mod Codecs
pub mod Comments
pub mod Reads
pub mod Starts
pub mod Parts
pub mod Requests
