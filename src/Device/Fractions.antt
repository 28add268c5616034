-- ===== src/Device/Fractions.antt =====
-- The play speeds that a device keeps and publishes are those of the allowed values that are fractions.
use renderer_service_upnp.Prelude.{
  ℕ, zero, suc, ◌+◌, ◌*◌, ◌/◌, ◌<◌, ◌≤◌, true, false, List, [], ◌∷◌, none, some, ◌≡◌, ◌≢◌, refl,
  nat_eq, if◌then◌else◌, map, sym, subst, arith, Bool-cases, inl, inr, ◌⊎◌, Option-cases, not,
}
use native.Mathlib.Numerals.{unary_clauses}
use native.Mathlib.Nat.{mul-add, mul-div-le, lt-mul-div-succ}
use renderer_service_upnp.Prelude.Int.{ℤ, pos, negsuc, negate, abs, ◌*ℤ◌}
use renderer_service_upnp.Glib.{Text}
use renderer_service_upnp.Glib.Decimal.{strtol}
use renderer_service_upnp.Device.Rates.{
  after_slash, numerator, denominator, is_zero, is_invalid, same_sign, hundredths,
  rational_to_double, is_negative, Rates, get_rates_values, valid, get_rates_values-valid,
}

-- What a text is a fraction of: the number before the slash, and that after it, or 1 where there is
-- none, as strtol reads them.
pub data IsFraction (r : Text) : ℤ → ℤ → Type 0 where
  whole : after_slash r ≡ none → IsFraction r (strtol r) (pos 1)
  over : (t : Text) → after_slash r ≡ some t → IsFraction r (strtol r) (strtol t)

-- z hundredths are p / q, rounded: 2 q z is no further from 200 p than q, and the sign is right.
pub record IsRounded (p q z : ℤ) : Type 0 where
  pub low : 2 * abs q * abs z ≤ 200 * abs p + abs q
  pub high : 200 * abs p < 2 * abs q * abs z + abs q
  pub sign : z ≡ (if is_negative (p *ℤ q) then negate (abs z) else pos (abs z))

-- A speed is a fraction that is not 0 and not over 0; its double is the rounded fraction.
pub record IsSpeed (r : Text) (z : ℤ) : Type 0 where
  pub num : ℤ
  pub den : ℤ
  pub is_fraction : IsFraction r num den
  pub num_nonzero : num ≢ pos 0
  pub den_nonzero : den ≢ pos 0
  pub rounded : IsRounded num den z

-- A text of which the fraction is 0, or over 0.
pub record IsNoSpeed (r : Text) : Type 0 where
  pub num : ℤ
  pub den : ℤ
  pub is_fraction : IsFraction r num den
  pub zero_in : (num ≡ pos 0) ⊎ (den ≡ pos 0)

-- From the allowed values: the texts that are kept, and the doubles that are published.
pub data Keeps : List Text → List Text → List ℤ → Type 0 where
  ends : Keeps [] [] []
  keeps :
      {r : Text} {z : ℤ} {list kept : List Text} {doubles : List ℤ}
      → IsSpeed r z
      → Keeps list kept doubles
      → Keeps (r ∷ list) (r ∷ kept) (z ∷ doubles)
  drops :
      {r : Text} {list kept : List Text} {doubles : List ℤ}
      → IsNoSpeed r
      → Keeps list kept doubles
      → Keeps (r ∷ list) kept doubles

denominator-IsFraction : (r : Text) → IsFraction r (numerator r) (denominator r)
unfolding numerator denominator
denominator-IsFraction r = elim (Option-cases (after_slash r)) [
  | inl e ↦ rw (e, denominator, numerator) (whole e)
  | inr (t, e) ↦ rw (e, denominator, numerator) (over t e)
]

is_zero-pos : (z : ℤ) → is_zero z ≡ true → z ≡ pos 0
unfolding is_zero
is_zero-pos (pos zero) h = refl
is_zero-pos (pos (suc n)) h = cc
is_zero-pos (negsuc n) h = cc

nonzero : (z : ℤ) → is_zero z ≡ false → z ≢ pos 0
unfolding is_zero
nonzero z h e = cc

abs-positive : (z : ℤ) → is_zero z ≡ false → 0 < abs z
unfolding is_zero
abs-positive (pos zero) h = cc
abs-positive (pos (suc n)) h = omega arith
abs-positive (negsuc n) h = omega arith

abs-negate : (n : ℕ) → abs (negate n) ≡ n
abs-negate zero = refl
abs-negate (suc n) = refl

negate-negative : (n : ℕ) → 0 < n → is_negative (negate n) ≡ true
unfolding is_negative
negate-negative zero h = ground arith
negate-negative (suc n) h = refl

product-positive : (a b : ℕ) → 0 < suc a * suc b
product-positive a b = simp unary_clauses (omega arith)

-- The sign of a product of numbers that are not 0.
sign-same :
    (p q : ℤ) → is_zero p ≡ false → is_zero q ≡ false → is_negative (p *ℤ q) ≡ not (same_sign p q)
unfolding is_zero is_negative same_sign
sign-same (pos zero) q hp hq = cc
sign-same p (pos zero) hp hq = cc
sign-same (pos (suc a)) (pos (suc b)) hp hq = refl
sign-same (pos (suc a)) (negsuc b) hp hq = negate-negative (suc a * suc b) (product-positive a b)
sign-same (negsuc a) (pos (suc b)) hp hq = negate-negative (suc a * suc b) (product-positive a b)
sign-same (negsuc a) (negsuc b) hp hq = refl

abs-hundredths : (p q : ℤ) → abs (hundredths p q) ≡ (200 * abs p + abs q) / (2 * abs q)
unfolding hundredths
abs-hundredths p q = elim (Bool-cases (same_sign p q)) [
  | inl e ↦ rw e refl
  | inr e ↦ rw e (abs-negate _)
]

-- The sign of the rounded fraction.
sign-hundredths :
    (p q : ℤ)
    → is_zero p ≡ false
    → is_zero q ≡ false
    → hundredths p q
      ≡ (if is_negative (p *ℤ q) then negate (abs (hundredths p q)) else pos (abs (hundredths p q)))
unfolding hundredths
sign-hundredths p q hp hq =
    let same = sign-same p q hp hq in
    let size = abs-hundredths p q in
    elim (Bool-cases (same_sign p q)) [
      | inl e ↦ rw (size, same, e) refl
      | inr e ↦ rw (size, same, e) refl
    ]

division-rounds :
    (a b : ℕ)
    → 0 < b
    → (2 * b * ((200 * a + b) / (2 * b)) ≤ 200 * a + b)
      × (200 * a < 2 * b * ((200 * a + b) / (2 * b)) + b)
division-rounds a b h =
    let n = (200 * a + b) / (2 * b) in
    let below : 2 * b * n ≤ 200 * a + b = mul-div-le (200 * a + b) (2 * b) in
    let above : 200 * a + b < 2 * b * (n + 1) = lt-mul-div-succ (200 * a + b) (omega arith) in
    (below, omega (arith, mul-add (2 * b) n 1))

hundredths-IsRounded :
    (p q : ℤ) → is_zero p ≡ false → is_zero q ≡ false → IsRounded p q (hundredths p q)
hundredths-IsRounded p q hp hq =
    let size = abs-hundredths p q in
    let parts = division-rounds (abs p) (abs q) (abs-positive q hq) in
    record { low = rw size parts.0; high = rw size parts.1; sign = sign-hundredths p q hp hq }

invalid-IsNoSpeed : (r : Text) → is_invalid r ≡ true → IsNoSpeed r
unfolding is_invalid
invalid-IsNoSpeed r h = elim (Bool-cases (is_zero (numerator r))) [
  | inl e ↦ record {
    num = numerator r;
    den = denominator r;
    is_fraction = denominator-IsFraction r;
    zero_in = inl (is_zero-pos _ e);
  }
  | inr e ↦ record {
    num = numerator r;
    den = denominator r;
    is_fraction = denominator-IsFraction r;
    zero_in = inr (is_zero-pos _ (ground arith));
  }
]

valid-IsSpeed : (r : Text) → is_invalid r ≡ false → IsSpeed r (rational_to_double r)
unfolding rational_to_double
valid-IsSpeed r h =
    let hp : is_zero (numerator r) ≡ false = unfold is_invalid in ground arith in
    let hq : is_zero (denominator r) ≡ false = unfold is_invalid in ground arith in
    rw h (record {
      num = numerator r;
      den = denominator r;
      is_fraction = denominator-IsFraction r;
      num_nonzero = nonzero _ hp;
      den_nonzero = nonzero _ hq;
      rounded = hundredths-IsRounded _ _ hp hq;
    })

valid-Keeps : (list : List Text) → Keeps list (valid list) (map rational_to_double (valid list))
unfolding valid
valid-Keeps [] = ends
valid-Keeps (r ∷ list) = elim (Bool-cases (is_invalid r)) [
  | inl e ↦ rw (valid, e) (drops (invalid-IsNoSpeed r e) (valid-Keeps list))
  | inr e ↦ rw (valid, e) (keeps (valid-IsSpeed r e) (valid-Keeps list))
]

-- Of the values that a renderer allows, the device keeps, in their order, the texts of a fraction that is
-- neither 0 nor over 0, and no others; and it publishes for each of these, place by place, the fraction
-- rounded to hundredths, with its sign.
pub get_rates_values-Keeps :
    (list : List Text) (v : Rates)
    → get_rates_values list ≡ some v
    → Keeps list v.upnp_tp_speeds v.mpris_tp_speeds
get_rates_values-Keeps list v h =
    let w = get_rates_values-valid list v h in
    subst (λ k. Keeps list k v.mpris_tp_speeds) (sym w.0)
      (subst (Keeps list (valid list)) (sym w.1) (valid-Keeps list))
