-- ===== src/Settings/LogLevel.antt =====
-- The levels that a list of numbers in the settings file stands for.
use renderer_service_upnp.Prelude.{
  Bool, false, ◌||◌, ◌≡◌, refl, List, [], ◌∷◌, Option, none, some, if◌then◌else◌, ◌==◌, nat_eq, leb,
  arith,
}
use renderer_service_upnp.Prelude.Int.{ℤ, pos, negsuc}
use renderer_service_upnp.Log.{Levels}
use renderer_service_upnp.Log.Subset.{
  Priority, level_has, error_message, critical_message, warning_message, plain_message,
  info_message, debug_message,
}
use renderer_service_upnp.Settings.{
  level_disabled, log_level_array, level_or, to_log_level_from, to_log_level,
}

-- The numbers that stand alone: 0, 7 and 8.
unfoldable pub is_single : ℤ → Bool
is_single (pos n) = n == 0 || (n == 7 || n == 8)
is_single (negsuc n) = false

-- The first number that stands alone.
unfoldable pub first_single : List ℤ → Option ℤ
first_single [] = none
first_single (z ∷ zs) = if is_single z then some z else first_single zs

-- The levels of a number; none of one that is out of range.
unfoldable pub levels_of : ℤ → Levels
levels_of (pos n) = if leb n 8 then log_level_array n else level_disabled
levels_of (negsuc n) = level_disabled

-- Whether one of the numbers has a level.
unfoldable pub any_has : Priority → List ℤ → Bool
any_has p [] = false
any_has p (z ∷ zs) = level_has p (levels_of z) || any_has p zs

-- What a list means: the number that stands alone and comes first, or all of the others together.
unfoldable pub means : Priority → List ℤ → Bool
means p zs = elim (first_single zs) [ none ↦ any_has p zs | some z ↦ level_has p (levels_of z) ]

has-level_or :
    (p : Priority) (a b : Levels) → level_has p (level_or a b) ≡ (level_has p a || level_has p b)
unfolding level_or
has-level_or error_message a b = refl
has-level_or critical_message a b = refl
has-level_or warning_message a b = refl
has-level_or plain_message a b = refl
has-level_or info_message a b = refl
has-level_or debug_message a b = refl

has-disabled : (p : Priority) → level_has p level_disabled ≡ false
has-disabled error_message = refl
has-disabled critical_message = refl
has-disabled warning_message = refl
has-disabled plain_message = refl
has-disabled info_message = refl
has-disabled debug_message = refl

-- From a value so far.
from_lem :
    (p : Priority) (value : Levels) (zs : List ℤ)
    → level_has p (to_log_level_from value zs) ≡ (elim (first_single zs) [
      | none ↦ level_has p value || any_has p zs
      | some z ↦ level_has p (levels_of z)
    ])
unfolding to_log_level_from first_single any_has levels_of is_single
from_lem p value [] = ground arith
from_lem p value (negsuc n ∷ zs) = ground (arith, from_lem p value zs, has-disabled p)
from_lem p value (pos n ∷ zs) = ground (
  arith,
  from_lem p value zs,
  from_lem p (level_or value (log_level_array n)) zs,
  has-level_or p value (log_level_array n),
  has-disabled p,
)

-- For every kind of message, prv_rsu_settings_to_log_level of a list has its level if and only if: the
-- first of the numbers 0, 7 and 8 in the list has it, where there is such a number; and where there is
-- none, one of the numbers has it. Numbers out of range have no level.
pub to_log_level-means : (p : Priority) (zs : List ℤ) → level_has p (to_log_level zs) ≡ means p zs
unfolding to_log_level means
to_log_level-means p zs = ground (arith, from_lem p level_disabled zs, has-disabled p)
