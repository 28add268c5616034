-- ===== src/Device/Offered.antt =====
-- The published play speeds, over every event that reaches a device and every property that a client
-- sets.
use renderer_service_upnp.Prelude.{string_eq}
use renderer_service_upnp.Task.{Task}
