-- ===== src/Prelude/Text.antt =====
-- Text as the list of its code points, where the program looks at characters.
use Prim.Native.Char.{code}
use Prim.Native.Nat.{ℕ}
use Prim.Native.String.{String}
use mathlib.Core.Bool.{Bool, true, false, ◌&&◌}
use mathlib.Core.List.{List, [], ◌∷◌}
use renderer_service_upnp.Prelude.Tests.{nat_beq}

abbrev pub codes : String → List ℕ
codes String.[] = []
codes (String.◌∷◌ c s) = code c ∷ codes s

-- strncmp of the whole of a prefix
abbrev pub is_prefix : List ℕ → List ℕ → Bool
is_prefix [] t = true
is_prefix (x ∷ s) [] = false
is_prefix (x ∷ s) (y ∷ t) = nat_beq x y && is_prefix s t

abbrev pub starts_with : String → String → Bool
starts_with s t = is_prefix (codes s) (codes t)
