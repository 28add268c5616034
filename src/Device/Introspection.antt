-- ===== src/Device/Introspection.antt =====
-- src/renderer-service-upnp.c: the properties that the introspection text declares for a renderer's
-- interfaces, with their D-Bus types, and the type of a value.
use renderer_service_upnp.Prelude.{
  String, List, [], ◌∷◌, some, ◌≡◌, refl, ◌∙◌, sym, ap, ◌==◌, string_eq, eq_iff, Bool-cases, inl,
  inr, some_inj, subst, if◌then◌else◌, arith, none, Option,
}
use renderer_service_upnp.Dict.{lookup, insert, lookup-insert}
use renderer_service_upnp.Task.Kinds.{
  Variant, string, strings, boolean, int32, int64, uint32, double, doubles, dict,
}
use renderer_service_upnp.Device.Props.{Table}
use renderer_service_upnp.Device.Update.{clear, put_text}

-- A D-Bus type: s, as, b, i, x, u, d, ad and a{sv}.
pub data Signature : Type 0 where
  type_s type_as type_b type_i type_x type_u type_d type_ad type_asv : Signature

abbrev pub Declared : Type 0
Declared = List (String × Signature)

-- The type of a GVariant.
abbrev pub type_of : Variant → Signature
type_of (string v) = type_s
type_of (strings v) = type_as
type_of (boolean v) = type_b
type_of (int32 v) = type_i
type_of (int64 v) = type_x
type_of (uint32 v) = type_u
type_of (double n q) = type_d
type_of (doubles v) = type_ad
type_of (dict v) = type_asv

abbrev pub server_properties : Declared
server_properties =
    ("CanQuit", type_b)
    ∷ ("CanRaise", type_b)
    ∷ ("CanSetFullscreen", type_b)
    ∷ ("HasTrackList", type_b)
    ∷ ("Identity", type_s)
    ∷ ("SupportedUriSchemes", type_as)
    ∷ ("SupportedMimeTypes", type_as)
    ∷ []

abbrev pub player_properties : Declared
player_properties =
    ("PlaybackStatus", type_s)
    ∷ ("Rate", type_d)
    ∷ ("MinimumRate", type_d)
    ∷ ("MaximumRate", type_d)
    ∷ ("TransportPlaySpeeds", type_ad)
    ∷ ("Volume", type_d)
    ∷ ("CanPlay", type_b)
    ∷ ("CanSeek", type_b)
    ∷ ("CanControl", type_b)
    ∷ ("CanPause", type_b)
    ∷ ("CanGoNext", type_b)
    ∷ ("CanGoPrevious", type_b)
    ∷ ("Position", type_x)
    ∷ ("Metadata", type_asv)
    ∷ ("CurrentTrack", type_u)
    ∷ ("NumberOfTracks", type_u)
    ∷ []

abbrev pub device_properties : Declared
device_properties =
    ("DeviceType", type_s)
    ∷ ("UDN", type_s)
    ∷ ("FriendlyName", type_s)
    ∷ ("IconURL", type_s)
    ∷ ("Manufacturer", type_s)
    ∷ ("ManufacturerUrl", type_s)
    ∷ ("ModelDescription", type_s)
    ∷ ("ModelName", type_s)
    ∷ ("ModelNumber", type_s)
    ∷ ("SerialNumber", type_s)
    ∷ ("PresentationURL", type_s)
    ∷ ("ProtocolInfo", type_s)
    ∷ []

-- Every entry is a declared property, with a value of its type.
abbrev pub HasTypes : Declared → Table → Type 0
HasTypes types m =
    (k : String) (v : Variant) → lookup k m ≡ some v → lookup k types ≡ some (type_of v)

pub insert-HasTypes :
    (types : Declared) (key : String) (v : Variant) (m : Table)
    → lookup key types ≡ some (type_of v)
    → HasTypes types m
    → HasTypes types (insert key v m)
insert-HasTypes types key v m h t k w e = elim (Bool-cases (key == k)) [
  | inl same ↦
      let at : some v ≡ some w = rw same refl ∙ sym (lookup-insert key k v m) ∙ e in
      let found : lookup key types ≡ some (type_of w) =
        h ∙ ap (λ z. some (type_of z)) (some_inj at) in
      subst (λ z. lookup z types ≡ some (type_of w)) ((eq_iff key k).0 same) found
  | inr other ↦ t k w (rw other refl ∙ sym (lookup-insert key k v m) ∙ e)
]

lookup-clear :
    (key k : String) (m : Table) → lookup k (clear key m) ≡ (if key == k then none else lookup k m)
unfolding lookup clear
lookup-clear key k [] = ground arith
lookup-clear key k ((j, v) ∷ m) =
    ground (arith, eq_iff j key, eq_iff key k, eq_iff j k, lookup-clear key k m)

pub clear-HasTypes :
    (types : Declared) (key : String) (m : Table) → HasTypes types m → HasTypes types (clear key m)
clear-HasTypes types key m t k w e = t k w (ground (arith, lookup-clear key k m))

pub put_text-HasTypes :
    (types : Declared) (key : String) (text : Option String) (m : Table)
    → lookup key types ≡ some type_s
    → HasTypes types m
    → HasTypes types (put_text key text m)
unfolding put_text
put_text-HasTypes types key none m h t = clear-HasTypes types key m t
put_text-HasTypes types key (some x) m h t = insert-HasTypes types key (string x) m h t
