-- ===== src/Device/Rates.antt =====
-- src/device.c: the play speeds of a renderer, which are texts like "2" or "5/6". A double is the
-- number of its hundredths.
use renderer_service_upnp.Prelude.{
  ℕ, zero, suc, ◌+◌, ◌*◌, ◌/◌, Bool, true, false, ◌||◌, List, [], ◌∷◌, ◌++◌, Option, none, some,
  ◌≡◌, ◌==◌, nat_eq, if◌then◌else◌, map, ap, sym, subst, some_inj, ◌∙◌, arith, Bool-cases, inl, inr,
}
use mathlib.Core.List.{append-nil, append_assoc}
use renderer_service_upnp.Prelude.Int.{ℤ, pos, negsuc, negate, abs, ◌*ℤ◌, ◌-ℤ◌}
use renderer_service_upnp.Glib.{Text}
use renderer_service_upnp.Glib.Decimal.{strtol, to_unsigned, to_int}

abbrev slash : ℕ
slash = 47

-- The text behind the first slash: strstr(r, "/") + 1
unfoldable pub after_slash : Text → Option Text
after_slash [] = none
after_slash (c ∷ t) = if c == slash then some t else after_slash t

-- prv_rational_get_numerator
unfoldable pub numerator : Text → ℤ
numerator r = strtol r

-- prv_rational_get_denominator
unfoldable pub denominator : Text → ℤ
denominator r = elim (after_slash r) [ none ↦ pos 1 | some t ↦ strtol t ]

unfoldable pub is_zero : ℤ → Bool
is_zero (pos zero) = true
is_zero _ = false

-- prv_rational_is_invalid
unfoldable pub is_invalid : Text → Bool
is_invalid r = is_zero (numerator r) || is_zero (denominator r)

unfoldable pub same_sign : ℤ → ℤ → Bool
same_sign (pos a) (pos b) = true
same_sign (negsuc a) (negsuc b) = true
same_sign _ _ = false

-- round(p / q / 0.01), away from 0 in the middle
unfoldable pub hundredths : ℤ → ℤ → ℤ
hundredths p q =
    let n = (200 * abs p + abs q) / (2 * abs q) in if same_sign p q then pos n else negate n

-- prv_rational_to_double, at the precision of 0.01
unfoldable pub rational_to_double : Text → ℤ
rational_to_double r = if is_invalid r then pos 0 else hundredths (numerator r) (denominator r)

-- prv_compare_rationals, whose long result is cut to a gint
unfoldable pub compare_rationals : Text → Text → ℤ
compare_rationals a b =
    to_int (to_unsigned (numerator a *ℤ denominator b -ℤ numerator b *ℤ denominator a))

unfoldable pub is_positive : ℤ → Bool
is_positive (pos (suc n)) = true
is_positive _ = false

unfoldable pub is_negative : ℤ → Bool
is_negative (negsuc n) = true
is_negative _ = false

-- The variables of the loop in prv_get_rates_values.
pub record Rates : Type 0 where
  pub min_rate_str : Text
  pub max_rate_str : Text
  pub upnp_tp_speeds : List Text
  pub mpris_tp_speeds : List ℤ

unfoldable pub min_max : Text → Rates → Rates
min_max rate v =
    if is_positive (compare_rationals v.min_rate_str rate)
    then record v { min_rate_str = rate }
    else if is_negative (compare_rationals v.max_rate_str rate)
    then record v { max_rate_str = rate }
    else v

unfoldable pub add_rate : Text → Rates → Rates
add_rate rate v =
    if is_invalid rate
    then v
    else min_max rate (record v {
      upnp_tp_speeds = v.upnp_tp_speeds ++ rate ∷ [];
      mpris_tp_speeds = v.mpris_tp_speeds ++ rational_to_double rate ∷ [];
    })

unfoldable pub add_rates : List Text → Rates → Rates
add_rates [] v = v
add_rates (rate ∷ list) v = add_rates list (add_rate rate v)

-- prv_get_rates_values, on the allowed values; no values are a list that is NULL
unfoldable pub get_rates_values : List Text → Option Rates
get_rates_values [] = none
get_rates_values (rate ∷ list) = some (
    add_rates (rate ∷ list) (record {
      min_rate_str = rate;
      max_rate_str = rate;
      upnp_tp_speeds = [];
      mpris_tp_speeds = [];
    }))

-- The texts that pass prv_rational_is_invalid.
unfoldable pub valid : List Text → List Text
valid [] = []
valid (r ∷ list) = let rest = valid list in if is_invalid r then rest else r ∷ rest

min_max-speeds :
    (r : Text) (v : Rates)
    → ((min_max r v).upnp_tp_speeds ≡ v.upnp_tp_speeds)
      × ((min_max r v).mpris_tp_speeds ≡ v.mpris_tp_speeds)
unfolding min_max
min_max-speeds r v = ground arith

add_rates-speeds :
    (list : List Text) (v : Rates)
    → ((add_rates list v).upnp_tp_speeds ≡ v.upnp_tp_speeds ++ valid list)
      × ((add_rates list v).mpris_tp_speeds
          ≡ v.mpris_tp_speeds ++ map rational_to_double (valid list))
unfolding add_rates add_rate valid
add_rates-speeds [] v = (sym (append-nil v.upnp_tp_speeds), sym (append-nil v.mpris_tp_speeds))
add_rates-speeds (r ∷ list) v = elim (Bool-cases (is_invalid r)) [
  | inl e ↦ rw (add_rates, add_rate, e) (add_rates-speeds list v)
  | inr e ↦
      let w : Rates = record v {
        upnp_tp_speeds = v.upnp_tp_speeds ++ r ∷ [];
        mpris_tp_speeds = v.mpris_tp_speeds ++ rational_to_double r ∷ [];
      } in
      let rest = add_rates-speeds list (min_max r w) in
      let kept = min_max-speeds r w in
      rw (add_rates, add_rate, e)
        (
          rest.0
              ∙ ap (λ s. s ++ valid list) kept.0
              ∙ append_assoc v.upnp_tp_speeds (r ∷ []) (valid list),
          rest.1
              ∙ ap (λ s. s ++ map rational_to_double (valid list)) kept.1
              ∙ append_assoc v.mpris_tp_speeds (rational_to_double r ∷ [])
                  (map rational_to_double (valid list)),
        )
]

-- The lists by the texts that pass prv_rational_is_invalid.
pub get_rates_values-valid :
    (list : List Text) (v : Rates)
    → get_rates_values list ≡ some v
    → (v.upnp_tp_speeds ≡ valid list) × (v.mpris_tp_speeds ≡ map rational_to_double (valid list))
unfolding get_rates_values
get_rates_values-valid [] v h = cc
get_rates_values-valid (r ∷ list) v h =
    let start : Rates = record {
      min_rate_str = r;
      max_rate_str = r;
      upnp_tp_speeds = [];
      mpris_tp_speeds = [];
    } in
    subst
      (λ (w : Rates).
        (w.upnp_tp_speeds ≡ valid (r ∷ list))
        × (w.mpris_tp_speeds ≡ map rational_to_double (valid (r ∷ list))))
      (some_inj h) (add_rates-speeds (r ∷ list) start)
