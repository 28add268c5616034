-- ===== src/Device/Metadata.antt =====
-- src/device.c: the metadata of the current track. GUPnP parses DIDL-Lite: what it finds is an argument.
use renderer_service_upnp.Prelude.{
  ℕ, String, Bool, true, false, List, [], ◌∷◌, ◌++◌, Option, none, some, ◌≡◌, refl, ◌==◌, string_eq,
  nat_eq, eq_iff, if◌then◌else◌, arith, ◌∙◌,
}
use renderer_service_upnp.Prelude.Int.{ℤ, pos, negsuc}
use renderer_service_upnp.Dict.{lookup, lookup-insert_self}
use renderer_service_upnp.Glib.{Text, GlibText}
use renderer_service_upnp.Glib.Decimal.{to_unsigned}
use renderer_service_upnp.Task.Kinds.{
  Variant, Entries, no_entries, entry, string, strings, int32, int64, dict,
}
use renderer_service_upnp.Device.Duration.{duration_to_int64}
use renderer_service_upnp.Device.Props.{Table, or_else, change_props, entries}
use renderer_service_upnp.Device.Answers.{find_entry, in_answer, find_entry-entries, lookup-append}

-- The player's properties, with the entries of `changed_props_vb`.
abbrev pub Changing : Type 0
Changing = Table × Table

-- What a GUPnPDIDLLiteObject says; a track number of -1 is none
pub record DidlObject : Type 0 where
  pub track_number : ℤ
  pub title : Option String
  pub album_art : Option String
  pub album : Option String
  pub genre : Option String
  -- names, with roles
  pub artists : List (String × Option String)

-- How gupnp_didl_lite_parser_parse_didl ends: it fails with GUPNP_XML_ERROR_EMPTY_NODE, or otherwise.
pub data Outcome : Type 0 where
  parsed empty_node failed : Outcome

-- gupnp_didl_lite_parser_parse_didl of a text inside of DIDL-Lite, with the objects for which it
-- emits "object-available", and printf of a track's path
pub record Didl : Type 0 where
  pub parse_didl : String → List DidlObject × Outcome
  pub track_path : ℕ → String

unfoldable pub is_none : ℤ → Bool
is_none (negsuc n) = n == 0
is_none (pos n) = false

-- g_variant_builder_add of a text that is there
unfoldable pub add_text : String → Option String → Table → Table
add_text key none vb = vb
add_text key (some s) vb = vb ++ (key, string s) ∷ []

-- The names of those who have no role.
unfoldable pub performers : List (String × Option String) → List String
performers [] = []
performers ((name, none) ∷ rest) = name ∷ performers rest
performers ((name, some role) ∷ rest) = performers rest

unfoldable pub album_artists : List (String × Option String) → List String
album_artists [] = []
album_artists ((name, none) ∷ rest) = album_artists rest
album_artists ((name, some role) ∷ rest) =
    let others = album_artists rest in if role == "AlbumArtist" then name ∷ others else others

unfoldable pub add_artists : List (String × Option String) → Table → Table
add_artists [] vb = vb
add_artists (a ∷ as') vb =
    vb
    ++ ("xesam:artist", strings (performers (a ∷ as')))
      ∷ ("xesam:albumArtist", strings (album_artists (a ∷ as')))
      ∷ []

-- prv_found_item
unfoldable pub found_item : (ℕ → String) → DidlObject → Table → Table
found_item track_path o vb0 =
    let n = o.track_number in
    let vb1 =
      vb0 ++ ("mpris:trackid", string (track_path (if is_none n then 0 else to_unsigned n))) ∷ [] in
    let vb2 = if is_none n then vb1 else vb1 ++ ("mpris:trackNumber", int32 n) ∷ [] in
    let vb3 = add_text "xesam:title" o.title vb2 in
    let vb4 = add_text "mpris:artUrl" o.album_art vb3 in
    let vb5 = add_text "xesam:album" o.album vb4 in
    let vb6 = add_text "xesam:genre" o.genre vb5 in add_artists o.artists vb6

unfoldable pub found_items : (ℕ → String) → List DidlObject → Table → Table
found_items track_path [] vb = vb
found_items track_path (o ∷ os) vb = found_items track_path os (found_item track_path o vb)

unfoldable pub set_metadata : Outcome → Table → Changing → Changing
set_metadata failed vb c = c
set_metadata _ vb c = change_props "Metadata" (dict (entries vb)) c

-- prv_duration_to_int64 of a duration that is there
unfoldable pub add_length : GlibText → Option Text → Table → Table
add_length glib none vb = vb
add_length glib (some t) vb = vb ++ ("mpris:length", int64 (pos (duration_to_int64 glib t))) ∷ []

-- prv_add_track_meta_data
unfoldable pub add_track_meta_data :
    GlibText → Didl → String → Option Text → Option String → Changing → Changing
add_track_meta_data glib didl metadata duration uri c =
    let found = didl.parse_didl metadata in
    set_metadata found.1
      (found_items didl.track_path found.0 (add_text "xesam:url" uri (add_length glib duration [])))
      c

-- The entries of a dictionary, with another value under a key, and whether the key was there.
unfoldable pub replace_value : String → Variant → Entries → Table × Bool
replace_value key value no_entries = ([], false)
replace_value key value (entry k v es) =
    let rest = replace_value key value es in
    if key == k then ((k, value) ∷ rest.0, true) else ((k, v) ∷ rest.0, rest.1)

unfoldable pub merged : String → Variant → Option Variant → Table
merged key value (some (dict es)) =
    let r = replace_value key value es in if r.1 then r.0 else r.0 ++ (key, value) ∷ []
merged key value _ = (key, value) ∷ []

-- prv_merge_meta_data
unfoldable pub merge_meta_data : String → Variant → Changing → Changing
merge_meta_data key value (props, changed) =
    change_props "Metadata" (dict (entries (merged key value (lookup "Metadata" props))))
      (props, changed)

replace_value-lookup :
    (key k : String) (value : Variant) (es : Entries)
    → lookup k (replace_value key value es).0
      ≡ (elim (find_entry k es) [ none ↦ none | some v ↦ if key == k then some value else some v ])
unfolding replace_value find_entry lookup
replace_value-lookup key k value no_entries = refl
replace_value-lookup key k value (entry j v es) =
    ground (arith, eq_iff key j, eq_iff key k, eq_iff j k, replace_value-lookup key k value es)

replace_value-found :
    (key : String) (value : Variant) (es : Entries)
    → (replace_value key value es).1 ≡ (elim (find_entry key es) [ none ↦ false | some v ↦ true ])
unfolding replace_value find_entry
replace_value-found key value no_entries = refl
replace_value-found key value (entry j v es) =
    ground (arith, eq_iff key j, eq_iff j key, replace_value-found key value es)

merged-lookup :
    (key k : String) (value : Variant) (o : Option Variant)
    → lookup k (merged key value o) ≡ (if key == k then some value else in_answer k o)
unfolding merged lookup or_else in_answer
merged-lookup key k value (some (dict es)) = ground (
  arith,
  eq_iff key k,
  replace_value-lookup key k value es,
  replace_value-found key value es,
  lookup-append k (replace_value key value es).0 ((key, value) ∷ []),
)
merged-lookup key k value _ = refl

-- After prv_merge_meta_data, the metadata that clients read has the new value under its key, and every
-- other entry as it was, whether there was metadata before or not.
pub merge_meta_data-entry :
    (key k : String) (value : Variant) (c : Changing)
    → in_answer k (lookup "Metadata" (merge_meta_data key value c).0)
      ≡ (if key == k then some value else in_answer k (lookup "Metadata" c.0))
unfolding merge_meta_data change_props in_answer
merge_meta_data-entry key k value (props, changed) =
    let m = merged key value (lookup "Metadata" props) in
    rw (lookup-insert_self "Metadata" (dict (entries m)) props)
      (find_entry-entries k m ∙ merged-lookup key k value (lookup "Metadata" props))
