-- ===== src/Device/Protocols.antt =====
-- src/device.c: the protocols and the media types that a renderer takes. GLib's functions on text are
-- an argument.
use renderer_service_upnp.Prelude.{
  ℕ, zero, suc, String, Bool, true, false, ◌||◌, List, [], ◌∷◌, Option, none, some, ◌≡◌, refl, ◌∙◌,
  sym, ◌==◌, string_eq, if◌then◌else◌, arith, subst, Bool-cases, inl, inr, ap,
}
use renderer_service_upnp.Dict.{
  lookup, insert, Distinct, insert-Distinct, lookup-insert, lookup-insert_self,
}
use renderer_service_upnp.Task.Kinds.{Variant, string, strings}
use renderer_service_upnp.Device.Props.{Table, Props, State}

-- g_strsplit with no bound on the parts, g_ascii_strncasecmp as a test for equality, and
-- g_ascii_strdown
pub record GlibAscii : Type 0 where
  pub split : String → String → List String
  pub same_start : String → String → ℕ → Bool
  pub strdown : String → String

-- A hash table of which only the keys are used.
abbrev pub KeySet : Type 0
KeySet = List (String × Unit {0})

-- A C string whose byte at a place is set to 0.
unfoldable pub cut : ℕ → String → String
cut zero s = ""
cut (suc n) String.[] = ""
cut (suc n) (String.◌∷◌ c s) = String.◌∷◌ c (cut n s)

module _ (glib : GlibAscii) where
  -- The protocol that an entry's first field names; "http-get" is "http".
  unfoldable pub scheme_of : String → String
  scheme_of field = glib.strdown (if glib.same_start "http-" field 5 then cut 4 field else field)

  -- The protocol and the type of an entry that has three fields.
  unfoldable pub type_info : List String → Option (String × String)
  type_info (protocol ∷ network ∷ type ∷ rest) = some (scheme_of protocol, glib.strdown type)
  type_info _ = none

  unfoldable pub entry_info : String → Option (String × String)
  entry_info entry = type_info (glib.split entry ":")

  unfoldable pub add_info : Option (String × String) → KeySet × KeySet → KeySet × KeySet
  add_info none sets = sets
  add_info (some (protocol, type)) (protocols, types) =
      (insert protocol tt protocols, insert type tt types)

  unfoldable pub add_infos : List String → KeySet × KeySet → KeySet × KeySet
  add_infos [] sets = sets
  add_infos (e ∷ es) sets = add_infos es (add_info (entry_info e) sets)

  unfoldable pub keys_of : KeySet → List String
  keys_of [] = []
  keys_of ((k, v) ∷ m) = k ∷ keys_of m

  -- prv_as_prop_from_hash_table
  unfoldable pub as_prop_from_hash_table : String → KeySet → Table → Table
  as_prop_from_hash_table name values props = insert name (strings (keys_of values)) props

  -- prv_process_protocol_info
  unfoldable pub process_protocol_info : String → State → State
  process_protocol_info info s =
      let sets = add_infos (glib.split info ",") ([], []) in
      record s {
        props = record s.props {
          device_props = insert "ProtocolInfo" (string info) s.props.device_props;
          root_props =
              as_prop_from_hash_table "SupportedMimeTypes" sets.1
                (as_prop_from_hash_table "SupportedUriSchemes" sets.0 s.props.root_props);
        };
      }

  -- prv_sink_change_cb, and prv_get_protocol_info_cb, whose call may have failed
  unfoldable pub sink_change : Option String → State → State
  sink_change none s = s
  sink_change (some sink) s = process_protocol_info sink s

-- Whether a text is in a list; whether a test holds of an element.
abbrev pub is_listed : String → List String → Bool
is_listed x [] = false
is_listed x (y ∷ ys) = y == x || is_listed x ys

abbrev pub any : (String → Bool) → List String → Bool
any p [] = false
any p (e ∷ es) = p e || any p es

abbrev pub scheme_is : String → Option (String × String) → Bool
scheme_is x none = false
scheme_is x (some (protocol, type)) = protocol == x

abbrev pub type_is : String → Option (String × String) → Bool
type_is x none = false
type_is x (some (protocol, type)) = type == x

abbrev pub IsOnce : List String → Type 0
IsOnce [] = Unit
IsOnce (x ∷ xs) = (is_listed x xs ≡ false) × IsOnce xs

or_swap : (a b c : Bool) → ((a || b) || c) ≡ (b || (a || c))
or_swap true true c = refl
or_swap true false c = refl
or_swap false true c = refl
or_swap false false c = refl

-- The first four characters of a text, or the text if it is shorter.
abbrev pub first_four : String → String
first_four (String.◌∷◌ a (String.◌∷◌ b (String.◌∷◌ c (String.◌∷◌ d s)))) =
    String.◌∷◌ a (String.◌∷◌ b (String.◌∷◌ c (String.◌∷◌ d "")))
first_four s = s

module _ (glib : GlibAscii) where
  -- What the first field of an entry names: "http" for what begins with "http-" in any case, else the
  -- whole field, in lower case.
  abbrev pub named : String → String
  named field =
      if glib.same_start "http-" field 5
      then glib.strdown (first_four field)
      else glib.strdown field

  -- Whether an entry's fields, of which there are three at least, name a protocol, the first one, or a
  -- type, the third one.
  abbrev pub fields_name_scheme : String → List String → Bool
  fields_name_scheme x (protocol ∷ network ∷ type ∷ rest) = named protocol == x
  fields_name_scheme x _ = false

  abbrev pub fields_name_type : String → List String → Bool
  fields_name_type x (protocol ∷ network ∷ type ∷ rest) = glib.strdown type == x
  fields_name_type x _ = false

  abbrev pub names_scheme : String → String → Bool
  names_scheme x e = fields_name_scheme x (glib.split e ":")

  abbrev pub names_type : String → String → Bool
  names_type x e = fields_name_type x (glib.split e ":")

  cut-first_four : (s : String) → cut 4 s ≡ first_four s
  unfolding cut
  cut-first_four String.[] = refl
  cut-first_four (String.◌∷◌ a String.[]) = refl
  cut-first_four (String.◌∷◌ a (String.◌∷◌ b String.[])) = refl
  cut-first_four (String.◌∷◌ a (String.◌∷◌ b (String.◌∷◌ c String.[]))) = refl
  cut-first_four (String.◌∷◌ a (String.◌∷◌ b (String.◌∷◌ c (String.◌∷◌ d s)))) = refl

  scheme_of-named : (field : String) → scheme_of glib field ≡ named field
  unfolding scheme_of
  scheme_of-named field = elim (Bool-cases (glib.same_start "http-" field 5)) [
    | inl e ↦ rw (e, scheme_of) (ap glib.strdown (cut-first_four field))
    | inr e ↦ rw (e, scheme_of) refl
  ]

  type_info-names :
      (x : String) (fields : List String)
      → (scheme_is x (type_info glib fields) ≡ fields_name_scheme x fields)
        × (type_is x (type_info glib fields) ≡ fields_name_type x fields)
  unfolding type_info
  type_info-names x (protocol ∷ network ∷ type ∷ rest) =
      (ap (λ n. n == x) (scheme_of-named protocol), refl)
  type_info-names x _ = (refl, refl)

  entry_info-names :
      (x e : String)
      → (scheme_is x (entry_info glib e) ≡ names_scheme x e)
        × (type_is x (entry_info glib e) ≡ names_type x e)
  unfolding entry_info
  entry_info-names x e = type_info-names x (glib.split e ":")

  has : String → KeySet → Bool
  has x m = elim (lookup x m) [ none ↦ false | some u ↦ true ]

  is_listed-keys_of : (x : String) (m : KeySet) → is_listed x (keys_of glib m) ≡ has x m
  unfolding keys_of lookup has
  is_listed-keys_of x [] = refl
  is_listed-keys_of x ((k, v) ∷ m) = ground (arith, is_listed-keys_of x m)

  keys_of-IsOnce : (m : KeySet) → Distinct m → IsOnce (keys_of glib m)
  unfolding keys_of has
  keys_of-IsOnce [] d = tt
  keys_of-IsOnce ((k, v) ∷ m) d = (is_listed-keys_of k m ∙ rw (d.0, has) refl, keys_of-IsOnce m d.1)

  has-insert : (x k : String) (m : KeySet) → has x (insert k tt m) ≡ (k == x || has x m)
  unfolding has
  has-insert x k m = ground (arith, lookup-insert k x tt m)

  add_info-has :
      (x : String) (o : Option (String × String)) (a b : KeySet)
      → (has x (add_info glib o (a, b)).0 ≡ (scheme_is x o || has x a))
        × (has x (add_info glib o (a, b)).1 ≡ (type_is x o || has x b))
  unfolding add_info
  add_info-has x none a b = (refl, refl)
  add_info-has x (some (p, t)) a b = (has-insert x p a, has-insert x t b)

  add_infos-has :
      (x : String) (es : List String) (a b : KeySet)
      → (has x (add_infos glib es (a, b)).0 ≡ (has x a || any (names_scheme x) es))
        × (has x (add_infos glib es (a, b)).1 ≡ (has x b || any (names_type x) es))
  unfolding add_infos
  add_infos-has x [] a b = (ground arith, ground arith)
  add_infos-has x (e ∷ es) a b =
      let sets = add_info glib (entry_info glib e) (a, b) in
      let one = add_info-has x (entry_info glib e) a b in
      let named_by = entry_info-names x e in
      let rest = add_infos-has x es sets.0 sets.1 in
      (
        rest.0
            ∙ rw (one.0, named_by.0)
                (or_swap (names_scheme x e) (has x a) (any (names_scheme x) es)),
        rest.1
            ∙ rw (one.1, named_by.1) (or_swap (names_type x e) (has x b) (any (names_type x) es)),
      )

  add_info-Distinct :
      (o : Option (String × String)) (a b : KeySet)
      → Distinct a
      → Distinct b
      → Distinct (add_info glib o (a, b)).0 × Distinct (add_info glib o (a, b)).1
  unfolding add_info
  add_info-Distinct none a b da db = (da, db)
  add_info-Distinct (some (p, t)) a b da db = (insert-Distinct p tt a da, insert-Distinct t tt b db)

  add_infos-Distinct :
      (es : List String) (a b : KeySet)
      → Distinct a
      → Distinct b
      → Distinct (add_infos glib es (a, b)).0 × Distinct (add_infos glib es (a, b)).1
  unfolding add_infos
  add_infos-Distinct [] a b da db = (da, db)
  add_infos-Distinct (e ∷ es) a b da db =
      let sets = add_info glib (entry_info glib e) (a, b) in
      let one = add_info-Distinct (entry_info glib e) a b da db in
      add_infos-Distinct es sets.0 sets.1 one.0 one.1

  -- The value of a property that lists, each once, the texts of which a test holds.
  pub record Lists (test : String → Bool) (value : Option Variant) : Type 0 where
    pub values : List String
    pub is_strings : value ≡ some (strings values)
    pub no_repeat : IsOnce values
    pub exact : (x : String) → is_listed x values ≡ test x

  keys_of-Lists :
      (test : String → Bool) (m : KeySet)
      → Distinct m
      → ((x : String) → has x m ≡ test x)
      → Lists test (some (strings (keys_of glib m)))
  keys_of-Lists test m d h = record {
    values = keys_of glib m;
    is_strings = refl;
    no_repeat = keys_of-IsOnce m d;
    exact = λ x. is_listed-keys_of x m ∙ h x;
  }

  -- What a renderer takes, as its properties say it.
  pub record Takes (info : String) (props : Props) : Type 0 where
    pub schemes :
        Lists
          (λ x. any (names_scheme x) (glib.split info ","))
          (lookup "SupportedUriSchemes" props.root_props)
    pub types :
        Lists
          (λ x. any (names_type x) (glib.split info ","))
          (lookup "SupportedMimeTypes" props.root_props)
    pub text : lookup "ProtocolInfo" props.device_props ≡ some (string info)

  -- After prv_process_protocol_info of a text, the property ProtocolInfo is that text.
  -- SupportedUriSchemes lists, each once and whatever they were before, exactly what the first fields of
  -- its entries name, of the entries with three fields or more: "http" for a field that begins with
  -- "http-", else the field itself, in lower case. SupportedMimeTypes lists exactly the third fields of
  -- these entries in lower case.
  pub process_protocol_info-Takes :
      (info : String) (s : State) → Takes info (process_protocol_info glib info s).props
  unfolding process_protocol_info as_prop_from_hash_table has lookup
  process_protocol_info-Takes info s =
      let es = glib.split info "," in
      let sets = add_infos glib es ([], []) in
      let d = add_infos-Distinct es [] [] tt tt in
      let types =
        keys_of-Lists (λ x. any (names_type x) es) sets.1 d.1 (λ x. (add_infos-has x es [] []).1) in
      let schemes =
        keys_of-Lists (λ x. any (names_scheme x) es) sets.0 d.0
          (λ x. (add_infos-has x es [] []).0) in
      record {
        schemes =
            subst (Lists _)
              (sym (
                lookup-insert "SupportedMimeTypes" "SupportedUriSchemes" _ _
                ∙ lookup-insert_self "SupportedUriSchemes" _ s.props.root_props))
              schemes;
        types = subst (Lists _) (sym (lookup-insert_self "SupportedMimeTypes" _ _)) types;
        text = lookup-insert_self "ProtocolInfo" (string info) s.props.device_props;
      }
