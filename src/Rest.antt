-- ===== src/Rest.antt =====
-- echo-rest/ and fiber-rest/: the HTTP servers, and the two of them side by side.
pub mod Echo
pub mod Fiber
pub mod Routes
pub mod Modules
pub mod Servers
mod Tests
