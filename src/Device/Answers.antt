-- ===== src/Device/Answers.antt =====
-- src/device.c: what Get and GetAll answer for the same interface.
use renderer_service_upnp.Prelude.{
  String, true, false, [], ◌∷◌, ◌++◌, Option, none, some, ◌≡◌, ◌≢◌, ◌↔◌, refl, ◌==◌, string_eq,
  eq_iff, if◌then◌else◌, arith, ap, sym, ◌∙◌,
}
use renderer_service_upnp.Dict.{lookup}
use renderer_service_upnp.Error.{unknown_interface, unknown_property}
use renderer_service_upnp.Task.{Task}
use renderer_service_upnp.Task.Kinds.{
  Variant, Entries, no_entries, entry, dict, get_prop_of, get_props_of,
}
use renderer_service_upnp.Device.Props.{
  Table, Props, interface_server, or_else, prop_of, is_interface, interface_error, or_error,
  get_prop_result, get_prop_payload, get_prop, add_props, props_of, entries, get_props_result,
  get_props_payload, get_props,
}

-- What a client finds under a name in the answer to GetAll.
unfoldable pub find_entry : String → Entries → Option Variant
find_entry k no_entries = none
find_entry k (entry j v es) = if j == k then some v else find_entry k es

unfoldable pub in_answer : String → Option Variant → Option Variant
in_answer k (some (dict es)) = find_entry k es
in_answer k _ = none

pub find_entry-entries : (k : String) (m : Table) → find_entry k (entries m) ≡ lookup k m
unfolding find_entry entries lookup
find_entry-entries k [] = refl
find_entry-entries k ((j, v) ∷ m) = ground (arith, find_entry-entries k m)

pub lookup-append :
    (k : String) (m m' : Table) → lookup k (m ++ m') ≡ or_else (lookup k m) (lookup k m')
unfolding lookup or_else
lookup-append k [] m' = refl
lookup-append k ((j, v) ∷ m) m' = ground (arith, lookup-append k m m')

answers-agree :
    (interface name : String) (p : Props)
    → interface ≢ interface_server
    → (elim (props_of interface p) [ none ↦ none | some m ↦ lookup name m ])
      ≡ prop_of interface name p
unfolding props_of add_props prop_of or_else
answers-agree interface name p h = ground (
  arith,
  eq_iff interface interface_server,
  lookup-append name p.root_props (p.player_props ++ p.device_props),
  lookup-append name p.root_props p.player_props,
  lookup-append name (p.root_props ++ p.player_props) p.device_props,
)

known-props_of :
    (interface : String) (p : Props)
    → is_interface interface ≡ (elim (props_of interface p) [ none ↦ false | some m ↦ true ])
unfolding is_interface props_of
known-props_of interface p = ground arith

-- A task that has no outcome yet.
abbrev pub IsFresh : Task → Type 0
IsFresh t = (t.result ≡ none) × (t.error ≡ none)

outcomes-agree :
    (interface name : String) (t u : Task) (o : Option Table) (r : Option Variant)
    → IsFresh t
    → IsFresh u
    → (elim o [ none ↦ none | some m ↦ lookup name m ]) ≡ r
    → is_interface interface ≡ (elim o [ none ↦ false | some m ↦ true ])
    → (in_answer name (get_props_result o u).result
        ≡ (get_prop_result r (record t { error = interface_error interface t.error })).result)
      × (((get_props_result o u).error ≡ some unknown_interface) ↔ (
          (get_prop_result r (record t { error = interface_error interface t.error })).error
          ≡ some unknown_interface))
unfolding get_props_result get_prop_result interface_error or_error in_answer
outcomes-agree interface name t u none none ft fu a k = (ground arith, ground arith)
outcomes-agree interface name t u none (some v) ft fu a k = cc
outcomes-agree interface name t u (some m) none ft fu a k =
    (find_entry-entries name m ∙ a ∙ sym ft.0, ground arith)
outcomes-agree interface name t u (some m) (some v) ft fu a k =
    (find_entry-entries name m ∙ a, ground arith)

module _ (interface name : String) (p : Props) (t u : Task) where
  -- Get and GetAll for the same interface, that of the server excepted, of tasks that have no outcome
  -- yet: what Get gives for a name is what GetAll has under that name, nothing where it has nothing;
  -- and the one fails with UnknownInterface if and only if the other does.
  pub get_prop-get_props :
      interface ≢ interface_server
      → t.ut ≡ get_prop_of interface name
      → u.ut ≡ get_props_of interface
      → IsFresh t
      → IsFresh u
      → (in_answer name (get_props p u).result ≡ (get_prop p t).result)
        × (((get_props p u).error ≡ some unknown_interface)
            ↔ ((get_prop p t).error ≡ some unknown_interface))
  unfolding get_prop get_props get_prop_payload get_props_payload
  get_prop-get_props h ht hu ft fu =
      let one : get_prop p t ≡ get_prop_payload (get_prop_of interface name) p t =
        ap (λ y. get_prop_payload y p t) ht in
      let all : get_props p u ≡ get_props_payload (get_props_of interface) p u =
        ap (λ y. get_props_payload y p u) hu in
      rw (one, all)
        (outcomes-agree interface name t u (props_of interface p) (prop_of interface name p) ft fu
          (answers-agree interface name p h) (known-props_of interface p))

  server_outcomes :
      (v : Variant)
      → t.error ≡ none
      → lookup name p.root_props ≡ none
      → lookup name p.device_props ≡ some v
      → (in_answer name (get_props_payload (get_props_of interface_server) p u).result ≡ some v)
        × ((get_prop_payload (get_prop_of interface_server name) p t).error ≡ some unknown_property)
  unfolding get_props_payload get_props_result props_of add_props get_prop_payload get_prop_result
      prop_of interface_error is_interface or_error in_answer or_else
  server_outcomes v e missing there = (
    find_entry-entries name (p.root_props ++ p.device_props)
        ∙ lookup-append name p.root_props p.device_props
        ∙ rw missing there,
    ground arith,
  )

  -- Of the server's interface: a property of the device that is no root property is in the answer to
  -- GetAll, but Get fails with UnknownProperty.
  pub get_props-server :
      (v : Variant)
      → interface ≡ interface_server
      → t.ut ≡ get_prop_of interface name
      → u.ut ≡ get_props_of interface
      → t.error ≡ none
      → lookup name p.root_props ≡ none
      → lookup name p.device_props ≡ some v
      → (in_answer name (get_props p u).result ≡ some v)
        × ((get_prop p t).error ≡ some unknown_property)
  unfolding get_prop get_props
  get_props-server v h ht hu e missing there =
      let one : get_prop p t ≡ get_prop_payload (get_prop_of interface_server name) p t =
        ap (λ y. get_prop_payload y p t) ht
        ∙ ap (λ i. get_prop_payload (get_prop_of i name) p t) h in
      let all : get_props p u ≡ get_props_payload (get_props_of interface_server) p u =
        ap (λ y. get_props_payload y p u) hu ∙ ap (λ i. get_props_payload (get_props_of i) p u) h in
      rw (one, all) (server_outcomes v e missing there)
