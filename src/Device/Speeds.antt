-- ===== src/Device/Speeds.antt =====
-- The published play speeds and the texts behind them, over everything that changes a device; and the
-- rate that a client sets.
use renderer_service_upnp.Prelude.{
  ℕ, zero, suc, true, false, List, [], ◌∷◌, Option, none, some, ◌≡◌, ◌⊎◌, refl, ap, ◌∙◌, string_eq,
  nat_eq, Bool-cases, inl, inr, map, subst, some_inj, get_elem?,
}
use renderer_service_upnp.Prelude.Int.{ℤ}
use renderer_service_upnp.Dict.{lookup, lookup-insert_self}
use renderer_service_upnp.Error.{bad_query}
use renderer_service_upnp.Glib.{Text}
use renderer_service_upnp.Task.{Task}
use renderer_service_upnp.Task.Kinds.{Variant, double, doubles}
use renderer_service_upnp.Device.Rates.{rational_to_double}
use renderer_service_upnp.Device.Props.{State}
use renderer_service_upnp.Device.Update.{hundredth}
use renderer_service_upnp.Device.Commands.{
  is_near, find_rate, rate_at, bad_rate, good_rate, get_rate_value_from_double, put_rate,
  put_result, set_rate,
}

abbrev published : Text → ℤ × ℕ
published r = hundredth (rational_to_double r)

-- What clients read under TransportPlaySpeeds, by the texts that the device keeps.
abbrev pub speeds_prop : Option (List Text) → Option Variant
speeds_prop none = none
speeds_prop (some speeds) = some (doubles (map hundredth (map rational_to_double speeds)))

-- The published speeds are those of the texts, place by place.
pub record HasSpeeds (s : State) : Type 0 where
  pub agree :
      lookup "TransportPlaySpeeds" s.props.player_props ≡ speeds_prop s.transport_play_speeds

-- No speed of a list is within 0.01 of a double.
abbrev pub NoneNear : ℤ → ℕ → List Text → Type 0
NoneNear n d speeds =
    (i : ℕ) (r : Text) → get_elem? speeds i ≡ some r → is_near n d (published r) ≡ false

-- The place of a text whose speed is within 0.01 of a double.
pub record NearAt (n : ℤ) (d i : ℕ) (r : Text) (speeds : List Text) : Type 0 where
  pub place : get_elem? speeds i ≡ some r
  pub near : is_near n d (published r) ≡ true

abbrev Found : ℤ → ℕ → List Text → Option ((ℤ × ℕ) × ℕ) → Type 0
Found n d speeds o =
    (NoneNear n d speeds × (o ≡ none))
    ⊎ ((i : ℕ) × (r : Text) × NearAt n d i r speeds × (o ≡ some (published r, i)))

find_rate-later :
    (n : ℤ) (d : ℕ) (r : Text) (speeds : List Text) (o : Option ((ℤ × ℕ) × ℕ))
    → is_near n d (published r) ≡ false
    → Found n d speeds o
    → Found n d (r ∷ speeds) (elim o [ none ↦ none | some (w, i) ↦ some (w, suc i) ])
find_rate-later n d r speeds o e (inl (far, h)) = inl (all_far, rw h refl)
  where
    all_far : NoneNear n d (r ∷ speeds)
    all_far zero q at = subst (λ x. is_near n d (published x) ≡ false) (some_inj at) e
    all_far (suc i) q at = far i q at
find_rate-later n d r speeds o e (inr (i, q, v, h)) =
    inr (suc i, q, record { place = v.place; near = v.near }, rw h refl)

find_rate-cases :
    (n : ℤ) (d : ℕ) (speeds : List Text)
    → Found n d speeds (find_rate n d (map hundredth (map rational_to_double speeds)))
unfolding find_rate
find_rate-cases n d [] = inl ((λ i r h. cc), refl)
find_rate-cases n d (r ∷ speeds) = elim (Bool-cases (is_near n d (published r))) [
  | inl e ↦ rw e (inr (0, r, record { place = refl; near = e }, refl))
  | inr e ↦ rw e (find_rate-later n d r speeds _ e (find_rate-cases n d speeds))
]

-- What rsu_device_set_prop leaves of a rate: an error and nothing else where no published speed is
-- near; else the text at the place of the speed that is, and its double.
abbrev pub SetRate : ℤ → ℕ → List Text → State → Task → State × Task → Type 0
SetRate n d speeds s t out =
    (NoneNear n d speeds × (out ≡ (s, record t { error = some bad_query })))
    ⊎ ((i : ℕ) × (r : Text) × NearAt n d i r speeds
        × (out.0.rate ≡ r)
        × (lookup "Rate" out.0.props.player_props ≡ some (double (rational_to_double r) 100))
        × (out.1 ≡ t))

rate_value-Found :
    (n : ℤ) (d : ℕ) (speeds : List Text)
    → Found n d speeds (find_rate n d (map hundredth (map rational_to_double speeds)))
    → let got = get_rate_value_from_double n d (speeds_prop (some speeds)) (some speeds) in
      (NoneNear n d speeds × (got ≡ some (bad_rate bad_query)))
      ⊎ ((i : ℕ) × (r : Text) × NearAt n d i r speeds × (got ≡ some (good_rate r (published r))))
unfolding rate_at get_rate_value_from_double
rate_value-Found n d speeds (inl (far, h)) = inl (far, rw (get_rate_value_from_double, h) refl)
rate_value-Found n d speeds (inr (i, r, v, h)) =
    inr (i, r, v, rw (get_rate_value_from_double, h) (rw v.place refl))

pub set_rate-SetRate :
    (n : ℤ) (d : ℕ) (speeds : List Text) (s : State) (t : Task)
    → s.transport_play_speeds ≡ some speeds
    → HasSpeeds s
    → (out : State × Task) × (set_rate (double n d) s t ≡ some out) × SetRate n d speeds s t out
unfolding set_rate put_result put_rate hundredth
set_rate-SetRate n d speeds s t e v =
    let o = lookup "TransportPlaySpeeds" s.props.player_props in
    let same : set_rate (double n d) s t
        ≡ put_result (get_rate_value_from_double n d (speeds_prop (some speeds)) (some speeds)) s
            t =
      ap (λ o. put_result (get_rate_value_from_double n d o s.transport_play_speeds) s t)
        (v.agree ∙ ap speeds_prop e)
      ∙ ap (λ p. put_result (get_rate_value_from_double n d (speeds_prop (some speeds)) p) s t) e in
    elim (rate_value-Found n d speeds (find_rate-cases n d speeds)) [
      | inl (far, h) ↦ (
        (s, record t { error = some bad_query }),
        same ∙ ap (λ r. put_result r s t) h,
        inl (far, refl),
      )
      | inr (i, r, near, h) ↦ (
        put_rate (good_rate r (published r)) s t,
        same ∙ ap (λ r. put_result r s t) h,
        inr (
          i,
          r,
          near,
          refl,
          lookup-insert_self "Rate" (double (rational_to_double r) 100) s.props.player_props,
          refl,
        ),
      )
    ]
