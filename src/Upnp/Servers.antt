-- ===== src/Upnp/Servers.antt =====
-- src/upnp.c: what is asked of all known devices.
use renderer_service_upnp.Prelude.{String, List, [], ◌∷◌, ◌≡◌, refl, ap}
use renderer_service_upnp.Device.Contexts.{device_unsubscribe}
use renderer_service_upnp.Upnp.Discovery.{Device, Upnp}

unfoldable pub paths : List (String × Device) → List String
paths [] = []
paths ((udn, device) ∷ rest) = device.path ∷ paths rest

-- rsu_upnp_get_server_ids
unfoldable pub get_server_ids : Upnp → List String
get_server_ids u = paths u.server_udn_map

unfoldable pub unsubscribe_all : List (String × Device) → List (String × Device)
unsubscribe_all [] = []
unsubscribe_all ((udn, device) ∷ rest) =
    (udn, record device { contexts = device_unsubscribe device.contexts }) ∷ unsubscribe_all rest

-- rsu_upnp_unsubscribe
unfoldable pub upnp_unsubscribe : Upnp → Upnp
upnp_unsubscribe u = record u { server_udn_map = unsubscribe_all u.server_udn_map }

paths-unsubscribe_all : (m : List (String × Device)) → paths (unsubscribe_all m) ≡ paths m
unfolding paths unsubscribe_all
paths-unsubscribe_all [] = refl
paths-unsubscribe_all ((udn, device) ∷ m) = ap (◌∷◌ device.path) (paths-unsubscribe_all m)

-- Unsubscribing leaves the answer to GetServers.
pub get_server_ids-upnp_unsubscribe :
    (u : Upnp) → get_server_ids (upnp_unsubscribe u) ≡ get_server_ids u
unfolding get_server_ids upnp_unsubscribe
get_server_ids-upnp_unsubscribe u = paths-unsubscribe_all u.server_udn_map
