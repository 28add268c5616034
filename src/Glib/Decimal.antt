-- ===== src/Glib/Decimal.antt =====
-- strtol and atoi as glibc has them on a machine with a long of 64 bits, and the printf of unsigned
-- numbers.
use renderer_service_upnp.Prelude.{
  ℕ, zero, suc, ◌+◌, ◌-◌, ◌*◌, ◌/◌, ◌%◌, ◌^◌, ◌<◌, Bool, true, ◌&&◌, [], ◌∷◌, ◌≡◌, refl, ◌==◌,
  nat_eq, ltb, if◌then◌else◌, arith,
}
use renderer_service_upnp.Prelude.Int.{ℤ, pos, negsuc, negate}
use renderer_service_upnp.Glib.{Text, is_space, is_solid, lacks}

abbrev pub is_digit : ℕ → Bool
is_digit c = ltb 47 c && ltb c 58

-- The number that the digits at the front of a text spell behind `n`.
unfoldable pub scan : ℕ → Text → ℕ
scan n [] = n
scan n (c ∷ t) = if is_digit c then scan (n * 10 + (c - 48)) t else n

unfoldable pub skip_spaces : Text → Text
skip_spaces [] = []
skip_spaces (c ∷ t) = if is_space c then skip_spaces t else c ∷ t

abbrev clamp : ℕ → ℕ → ℕ
clamp most n = if ltb most n then most else n

-- The number after an optional sign: strtol gives the nearest long.
unfoldable pub signed : Text → ℤ
signed [] = pos 0
signed (c ∷ t) =
    if c == 45
    then negate (clamp (2 ^ 63) (scan 0 t))
    else if c == 43
    then pos (clamp (2 ^ 63 - 1) (scan 0 t))
    else pos (clamp (2 ^ 63 - 1) (scan 0 (c ∷ t)))

-- strtol(s, NULL, 10)
unfoldable pub strtol : Text → ℤ
strtol t = signed (skip_spaces t)

-- The conversion of a number to an unsigned int.
unfoldable pub to_unsigned : ℤ → ℕ
to_unsigned (pos n) = n % 2 ^ 32
to_unsigned (negsuc n) = 2 ^ 32 - 1 - n % 2 ^ 32

-- The int of the bits of an unsigned int.
unfoldable pub to_int : ℕ → ℤ
to_int u = if ltb u (2 ^ 31) then pos u else negsuc (2 ^ 32 - 1 - u)

-- atoi
unfoldable pub atoi : Text → ℤ
atoi t = to_int (to_unsigned (strtol t))

-- The digits of a number of at most `k` digits, before `out`.
unfoldable pub emit : ℕ → ℕ → Text → Text
emit zero n out = out
emit (suc k) n out =
    let rest = emit k (n / 10) ((48 + n % 10) ∷ out) in if ltb 0 n then rest else out

-- "%u" of an unsigned int, which has ten digits at most
unfoldable pub print_unsigned : ℕ → Text
print_unsigned n = if n == 0 then 48 ∷ [] else emit 10 n []

-- "%02u"
unfoldable pub print_padded : ℕ → Text
print_padded n = if ltb n 10 then 48 ∷ (48 + n) ∷ [] else emit 10 n []

abbrev limit : ℕ → ℕ
limit zero = 1
limit (suc k) = 10 * limit k

scan-emit : (k n : ℕ) (out : Text) → n < limit k → scan 0 (emit k n out) ≡ scan n out
unfolding scan emit
scan-emit zero n out h = ground arith
scan-emit (suc k) n out h = ground (arith, scan-emit k (n / 10) ((48 + n % 10) ∷ out))

-- Digits in front of a text of digits.
abbrev all_digits : Text → Bool
all_digits [] = true
all_digits (c ∷ t) = is_digit c && all_digits t

emit-digits : (k n : ℕ) (out : Text) → all_digits out ≡ true → all_digits (emit k n out) ≡ true
unfolding emit
emit-digits zero n out h = h
emit-digits (suc k) n out h = ground (arith, emit-digits k (n / 10) ((48 + n % 10) ∷ out))

print_padded-digits : (n : ℕ) → all_digits (print_padded n) ≡ true
unfolding print_padded
print_padded-digits n = ground (arith, emit-digits 10 n [] refl)

digits-solid : (t : Text) → all_digits t ≡ true → is_solid t ≡ true
digits-solid [] h = refl
digits-solid (c ∷ t) h = ground (arith, digits-solid t)

digits-lacks : (t : Text) → all_digits t ≡ true → lacks 58 t ≡ true
digits-lacks [] h = refl
digits-lacks (c ∷ t) h = ground (arith, digits-lacks t)

pub print_padded-solid : (n : ℕ) → is_solid (print_padded n) ≡ true
print_padded-solid n = digits-solid (print_padded n) (print_padded-digits n)

pub print_padded-lacks : (n : ℕ) → lacks 58 (print_padded n) ≡ true
print_padded-lacks n = digits-lacks (print_padded n) (print_padded-digits n)

scan-print_padded : (n : ℕ) → n < 2 ^ 32 → scan 0 (print_padded n) ≡ n
unfolding print_padded scan
scan-print_padded n h = ground (arith, scan-emit 10 n [])

strtol-digits : (t : Text) → all_digits t ≡ true → scan 0 t < 2 ^ 63 → strtol t ≡ pos (scan 0 t)
unfolding strtol skip_spaces signed scan
strtol-digits [] h l = refl
strtol-digits (c ∷ t) h l = ground arith

-- atoi reads back what "%02u" printed.
pub atoi-print_padded : (n : ℕ) → n < 2 ^ 31 → atoi (print_padded n) ≡ pos n
unfolding atoi to_unsigned to_int
atoi-print_padded n h =
    ground (arith, strtol-digits (print_padded n) (print_padded-digits n), scan-print_padded n)
