-- ===== src/Upnp/Tables.antt =====
-- What holds of the two tables of devices, whatever appears and goes.
use renderer_service_upnp.Prelude.{
  ℕ, String, Bool, true, false, List, [], ◌∷◌, Option, none, some, ◌==◌, nat_eq, string_eq, ◌≡◌,
  refl, arith, eq_iff, Bool-cases, inl, inr,
}
use renderer_service_upnp.Dict.{
  lookup, insert, Distinct, AllValues, lookup-insert, lookup-remove, insert-Distinct,
  remove-Distinct, lookup-AllValues, insert-AllValues, remove-AllValues,
}
use renderer_service_upnp.Device.Contexts.{
  Proxy, DeviceContext, is_local_context, find_index, or_first, get_context,
}
use renderer_service_upnp.Device.Preferred.{PreferredOnly, append_new_context-IsSettled}
use renderer_service_upnp.Upnp.Discovery.{
  Device, Building, Upnp, add_context, put_device, is_empty, emit_lost, leave_device, find_building,
  end_building,
}

-- A device that has a context, and is subscribed through the preferred one only.
pub record IsLive (d : Device) : Type 0 where
  pub there : (p : ℕ) × (get_context d.contexts ≡ some p)
  pub only : PreferredOnly d.contexts

abbrev pub IsBuilding : Building → Type 0
IsBuilding b = PreferredOnly b.device.contexts

-- No UDN stands twice, in one table or in both; every device that is known has a context.
pub record IsTables (known : List (String × Device)) (built : List (String × Building))
    : Type 0 where
  pub known_once : Distinct known
  pub built_once : Distinct built
  pub apart : (udn : String) (b : Building) → lookup udn built ≡ some b → lookup udn known ≡ none
  pub live : AllValues IsLive known
  pub building : AllValues IsBuilding built

abbrev pub HasTables : Upnp → Type 0
HasTables u = IsTables u.server_udn_map u.server_uc_map

pub get_context-nonempty :
    (cs : List DeviceContext) → is_empty cs ≡ false → (p : ℕ) × (get_context cs ≡ some p)
unfolding get_context or_first is_empty
get_context-nonempty cs h = first (find_index is_local_context cs) cs h
  where
    first :
        (o : Option ℕ) (cs : List DeviceContext)
        → is_empty cs ≡ false
        → (p : ℕ) × (or_first o cs ≡ some p)
    first (some i) cs h = (i, refl)
    first none [] h = cc
    first none (c ∷ cs) h = (0, refl)

pub add_context-IsSettled :
    (o : Option ℕ) (ip : String) (proxy : Proxy) (d : Device)
    → PreferredOnly d.contexts
    → (d' : Device) × (add_context o ip proxy d ≡ some d') × PreferredOnly d'.contexts
unfolding add_context
add_context-IsSettled (some i) ip proxy d v = (d, refl, v)
add_context-IsSettled none ip proxy d v =
    let (out, ran, w) = append_new_context-IsSettled ip proxy d.contexts v in
    (record d { contexts = out.0 }, ground arith, w.only)

pub add_context-IsLive :
    (o : Option ℕ) (ip : String) (proxy : Proxy) (d : Device)
    → IsLive d
    → (d' : Device) × (add_context o ip proxy d ≡ some d') × IsLive d'
unfolding add_context
add_context-IsLive (some i) ip proxy d v = (d, refl, v)
add_context-IsLive none ip proxy d v =
    let (out, ran, w) = append_new_context-IsSettled ip proxy d.contexts v.only in
    (record d { contexts = out.0 }, ground arith, record { there = w.there; only = w.only })

-- A device in the table changes, and stays live.
pub put_device-IsTables :
    (udn : String) (u : Upnp) (d d' : Device)
    → lookup udn u.server_udn_map ≡ some d
    → IsLive d'
    → HasTables u
    → HasTables (put_device udn u d')
unfolding put_device
put_device-IsTables udn u d d' found l v = record {
  known_once = insert-Distinct udn d' u.server_udn_map v.known_once;
  built_once = v.built_once;
  apart = λ other b h.
      ground
        (arith, lookup-insert udn other d' u.server_udn_map, eq_iff udn other, v.apart other b h);
  live = insert-AllValues IsLive udn d' u.server_udn_map l v.live;
  building = v.building;
}

-- A device under construction changes, or is new.
pub insert-IsTables :
    (udn : String) (b : Building) (known : List (String × Device))
    (built : List (String × Building))
    → lookup udn known ≡ none
    → IsBuilding b
    → IsTables known built
    → IsTables known (insert udn b built)
insert-IsTables udn b known built free l v = record {
  known_once = v.known_once;
  built_once = insert-Distinct udn b built v.built_once;
  apart = λ other b' h. elim (Bool-cases (udn == other)) [
    | inl e ↦ ground (arith, eq_iff udn other)
    | inr e ↦ v.apart other b' (ground (arith, lookup-insert udn other b built))
  ];
  live = v.live;
  building = insert-AllValues IsBuilding udn b built l v.building;
}

pub leave_device-IsTables :
    (udn : String) (u : Upnp) (d d' : Device)
    → lookup udn u.server_udn_map ≡ some d
    → PreferredOnly d'.contexts
    → HasTables u
    → HasTables (leave_device udn u d')
unfolding leave_device emit_lost
leave_device-IsTables udn u d d' found l v = elim (Bool-cases (is_empty d'.contexts)) [
  | inl e ↦ rw e (record {
    known_once = remove-Distinct udn u.server_udn_map v.known_once;
    built_once = v.built_once;
    apart = λ other b h.
        ground (arith, lookup-remove udn other u.server_udn_map v.known_once, v.apart other b h);
    live = remove-AllValues IsLive udn u.server_udn_map v.live;
    building = v.building;
  })
  | inr e ↦ rw e (
      put_device-IsTables udn u d d' found
        (record { there = get_context-nonempty d'.contexts e; only = l }) v)
]

pub find_building-lookup :
    (priv : ℕ) (udn : String) (b : Building) (m : List (String × Building))
    → Distinct m
    → find_building priv m ≡ some (udn, b)
    → lookup udn m ≡ some b
unfolding find_building lookup
find_building-lookup priv udn b [] d h = cc
find_building-lookup priv udn b ((j, c) ∷ m) d h = elim (Bool-cases (c.priv == priv)) [
  | inl e ↦ ground (arith, eq_iff j udn)
  | inr e ↦ ground (arith, eq_iff j udn, find_building-lookup priv udn b m d.1)
]

pub end_building-IsTables :
    (cancelled : Bool) (udn : String) (b : Building) (u : Upnp)
    → lookup udn u.server_uc_map ≡ some b
    → (cancelled ≡ false → is_empty b.device.contexts ≡ false)
    → HasTables u
    → HasTables (end_building cancelled udn b u)
unfolding end_building
end_building-IsTables true udn b u found h v = record {
  known_once = v.known_once;
  built_once = remove-Distinct udn u.server_uc_map v.built_once;
  apart = λ other c e.
      v.apart other c (ground (arith, lookup-remove udn other u.server_uc_map v.built_once));
  live = v.live;
  building = remove-AllValues IsBuilding udn u.server_uc_map v.building;
}
end_building-IsTables false udn b u found h v = record {
  known_once = insert-Distinct udn b.device u.server_udn_map v.known_once;
  built_once = remove-Distinct udn u.server_uc_map v.built_once;
  apart = λ other c e. ground (
    arith,
    lookup-remove udn other u.server_uc_map v.built_once,
    lookup-insert udn other b.device u.server_udn_map,
    v.apart other c,
  );
  live =
      insert-AllValues IsLive udn b.device u.server_udn_map
        (record {
          there = get_context-nonempty b.device.contexts (h refl);
          only = lookup-AllValues IsBuilding udn b u.server_uc_map v.building found;
        })
        v.live;
  building = remove-AllValues IsBuilding udn u.server_uc_map v.building;
}
