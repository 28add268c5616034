-- ===== src/Device/Duration.antt =====
-- src/device.c: the durations of UPnP, as hours, minutes and seconds, and microseconds.
use renderer_service_upnp.Prelude.{
  ℕ, ◌+◌, ◌*◌, ◌/◌, ◌%◌, ◌^◌, ◌<◌, true, List, [], ◌∷◌, ◌++◌, ◌≡◌, ◌≢◌, refl, ◌∙◌, nat_eq, arith,
}
use renderer_service_upnp.Prelude.Int.{ℤ, pos, negsuc}
use renderer_service_upnp.Glib.{Text, GlibText, is_solid}
use renderer_service_upnp.Glib.Decimal.{
  atoi, strtol, skip_spaces, signed, scan, to_int, to_unsigned, emit, print_padded,
  print_padded-solid, print_padded-lacks, atoi-print_padded,
}

abbrev colon : ℕ
colon = 58

-- The loop of prv_duration_to_int64 from the last part to the first: `i` and the product are unsigned
-- int, `total` is a gint64.
unfoldable pub add_parts : (Text → Text) → ℕ → ℕ → List Text → ℕ
add_parts strip i total [] = total
add_parts strip i total (p ∷ ps) =
    add_parts strip ((i * 60) % 2 ^ 32) (total + (to_unsigned (atoi (strip p)) * i) % 2 ^ 32) ps

unfoldable pub read_parts : (Text → Text) → List Text → ℕ
read_parts strip (h ∷ m ∷ s ∷ []) = add_parts strip 1 0 (s ∷ m ∷ h ∷ []) * 1000000
read_parts strip _ = 0

module _ (glib : GlibText) where
  -- prv_duration_to_int64
  unfoldable pub duration_to_int64 : Text → ℕ
  duration_to_int64 duration = read_parts glib.strstrip (glib.strsplit colon duration)

-- The format "%02u:%02u:%02u", of an unsigned number of seconds.
unfoldable pub print_duration : ℕ → Text
print_duration seconds =
    print_padded (seconds / 3600)
    ++ colon ∷ (print_padded ((seconds / 60) % 60) ++ colon ∷ print_padded (seconds % 60))

-- prv_int64_to_duration; the least gint64 has no negation in C
unfoldable pub int64_to_duration : ℤ → Text
int64_to_duration (pos micro) = print_duration ((micro / 1000000) % 2 ^ 32)
int64_to_duration (negsuc n) = 45 ∷ print_duration (((n + 1) / 1000000) % 2 ^ 32)

add_parts-bound :
    (strip : Text → Text) (a b c : Text) → add_parts strip 1 0 (a ∷ b ∷ c ∷ []) < 3 * 2 ^ 32
unfolding add_parts
add_parts-bound strip a b c = omega arith

read_parts-bound : (strip : Text → Text) (ps : List Text) → read_parts strip ps < 2 ^ 63
unfolding read_parts
read_parts-bound strip [] = omega arith
read_parts-bound strip (h ∷ []) = omega arith
read_parts-bound strip (h ∷ m ∷ []) = omega arith
read_parts-bound strip (h ∷ m ∷ s ∷ []) = omega (arith, add_parts-bound strip s m h)
read_parts-bound strip (h ∷ m ∷ s ∷ x ∷ ps) = omega arith

print_padded-nonempty : (n : ℕ) → print_padded n ≢ []
unfolding print_padded emit
print_padded-nonempty n = ground arith

append-nonempty : (a : Text) (c : ℕ) (b : Text) → a ++ c ∷ b ≢ []
append-nonempty [] c b = cc
append-nonempty (x ∷ a) c b = cc

read_printed :
    (h m s : ℕ) (strip : Text → Text)
    → ((a : Text) → is_solid a ≡ true → strip a ≡ a)
    → h < 1193047
    → m < 60
    → s < 60
    → read_parts strip (print_padded h ∷ print_padded m ∷ print_padded s ∷ [])
      ≡ (h * 3600 + m * 60 + s) * 1000000
unfolding read_parts add_parts to_unsigned
read_printed h m s strip keeps lh lm ls =
    rw
      (
        keeps (print_padded h) (print_padded-solid h),
        keeps (print_padded m) (print_padded-solid m),
        keeps (print_padded s) (print_padded-solid s),
        atoi-print_padded h (omega arith),
        atoi-print_padded m (omega arith),
        atoi-print_padded s (omega arith),
      )
      (omega arith)

-- "-00"
abbrev minus_zero : Text
minus_zero = 45 ∷ 48 ∷ 48 ∷ []

atoi-minus_zero : atoi minus_zero ≡ pos 0
unfolding atoi strtol skip_spaces signed scan to_unsigned to_int
atoi-minus_zero = refl

read_negative :
    (m s : ℕ) (strip : Text → Text)
    → ((a : Text) → is_solid a ≡ true → strip a ≡ a)
    → m < 60
    → s < 60
    → read_parts strip (minus_zero ∷ print_padded m ∷ print_padded s ∷ []) ≡ (m * 60 + s) * 1000000
unfolding read_parts add_parts to_unsigned
read_negative m s strip keeps lm ls =
    rw
      (
        keeps minus_zero refl,
        keeps (print_padded m) (print_padded-solid m),
        keeps (print_padded s) (print_padded-solid s),
        atoi-minus_zero,
        atoi-print_padded m (omega arith),
        atoi-print_padded s (omega arith),
      )
      (omega arith)

module _ (glib : GlibText) where
  split_printed :
      (h m s : ℕ)
      → glib.strsplit colon (print_padded h ++ colon ∷ (print_padded m ++ colon ∷ print_padded s))
        ≡ print_padded h ∷ print_padded m ∷ print_padded s ∷ []
  split_printed h m s =
      let tail = append-nonempty (print_padded m) colon (print_padded s) in
      rw
        (
          glib.strsplit_first colon (print_padded h) (print_padded m ++ colon ∷ print_padded s) tail
              (print_padded-lacks h),
          glib.strsplit_first colon (print_padded m) (print_padded s) (print_padded-nonempty s)
              (print_padded-lacks m),
          glib.strsplit_last colon (print_padded s) (print_padded-nonempty s)
              (print_padded-lacks s),
        )
        refl

  split_negative :
      (s : ℕ)
      → s < 3600
      → glib.strsplit colon (45 ∷ print_duration s)
        ≡ minus_zero ∷ print_padded ((s / 60) % 60) ∷ print_padded (s % 60) ∷ []
  unfolding print_duration print_padded
  split_negative s h =
      let m = (s / 60) % 60 in
      let none_left : s / 3600 ≡ 0 = omega arith in
      let tail = append-nonempty (print_padded m) colon (print_padded (s % 60)) in
      rw
        (
          none_left,
          glib.strsplit_first colon minus_zero (print_padded m ++ colon ∷ print_padded (s % 60))
              tail refl,
          glib.strsplit_first colon (print_padded m) (print_padded (s % 60))
              (print_padded-nonempty (s % 60)) (print_padded-lacks m),
          glib.strsplit_last colon (print_padded (s % 60)) (print_padded-nonempty (s % 60))
              (print_padded-lacks (s % 60)),
        )
        refl

  -- A position of no more seconds than an unsigned int holds: prv_duration_to_int64 reads from the text
  -- that prv_int64_to_duration writes the same position, cut to whole seconds.
  pub duration-roundtrip :
      (micro : ℕ)
      → micro / 1000000 < 2 ^ 32
      → duration_to_int64 glib (int64_to_duration (pos micro)) ≡ (micro / 1000000) * 1000000
  unfolding duration_to_int64 int64_to_duration print_duration
  duration-roundtrip micro h =
      let s = micro / 1000000 in
      rw (split_printed ((s % 2 ^ 32) / 3600) (((s % 2 ^ 32) / 60) % 60) ((s % 2 ^ 32) % 60)) (
        read_printed ((s % 2 ^ 32) / 3600) (((s % 2 ^ 32) / 60) % 60) ((s % 2 ^ 32) % 60)
          glib.strstrip glib.strstrip_solid (omega arith) (omega arith) (omega arith)
        ∙ omega arith)

  -- Whatever text a renderer sends as a duration, prv_duration_to_int64 computes no more than a gint64
  -- holds.
  pub duration_to_int64-bound : (duration : Text) → duration_to_int64 glib duration < 2 ^ 63
  unfolding duration_to_int64
  duration_to_int64-bound duration = read_parts-bound glib.strstrip (glib.strsplit colon duration)

  -- A position of less than an hour before the start: prv_duration_to_int64 reads from the text that
  -- prv_int64_to_duration writes the position as far after the start. The sign is lost.
  pub duration-sign_lost :
      (n : ℕ)
      → n + 1 < 3600 * 1000000
      → duration_to_int64 glib (int64_to_duration (negsuc n)) ≡ ((n + 1) / 1000000) * 1000000
  unfolding duration_to_int64 int64_to_duration print_duration
  duration-sign_lost n h =
      let s = ((n + 1) / 1000000) % 2 ^ 32 in
      rw (split_negative s (omega arith)) (
        read_negative ((s / 60) % 60) (s % 60) glib.strstrip glib.strstrip_solid (omega arith)
          (omega arith)
        ∙ omega arith)
