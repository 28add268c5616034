-- ===== src/Device/Objects.antt =====
-- src/device.c: the D-Bus objects of a device, one for each interface: prv_declare registers them, and
-- rsu_device_delete takes them away. What g_dbus_connection_register_object gives for each interface, 0
-- where it fails, is an argument.
use renderer_service_upnp.Prelude.{ℕ, zero, suc, Bool, true, false, List, [], ◌∷◌, ◌≡◌, refl, ap}

-- The ids that rsu_device_new's g_new0 has left 0.
unfoldable pub blank_ids : List ℕ → List ℕ
blank_ids [] = []
blank_ids (id ∷ rest) = zero ∷ blank_ids rest

-- prv_declare: `ids` of the device, and whether it failed
unfoldable pub declare_objects : List ℕ → List ℕ × Bool
declare_objects [] = ([], false)
declare_objects (zero ∷ rest) = (zero ∷ blank_ids rest, true)
declare_objects (suc n ∷ rest) = let later = declare_objects rest in (suc n ∷ later.0, later.1)

-- What prv_declare has registered.
unfoldable pub registrations : List ℕ → List ℕ
registrations [] = []
registrations (zero ∷ rest) = []
registrations (suc n ∷ rest) = suc n ∷ registrations rest

-- The loop of rsu_device_delete: the ids that it unregisters.
unfoldable pub unregister : List ℕ → List ℕ
unregister [] = []
unregister (zero ∷ rest) = []
unregister (suc n ∷ rest) = suc n ∷ unregister rest

-- Whether prv_declare has failed or not, deleting the device unregisters what it has registered.
pub unregister-declare_objects :
    (results : List ℕ) → unregister (declare_objects results).0 ≡ registrations results
unfolding declare_objects unregister registrations
unregister-declare_objects [] = refl
unregister-declare_objects (zero ∷ rest) = refl
unregister-declare_objects (suc n ∷ rest) = ap (◌∷◌ (suc n)) (unregister-declare_objects rest)
