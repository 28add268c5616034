-- ===== src/Renderer.antt =====
-- src/renderer-service-upnp.c: the D-Bus side of the service.
pub mod Context
pub mod Calls
pub mod Made
pub mod Paid
pub mod Answered
pub mod Clients
pub mod Tests
