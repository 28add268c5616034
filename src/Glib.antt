-- ===== src/Glib.antt =====
-- What src/device.c uses of GLib's and the C library's functions on text. Text is the list of its code
-- points. GLib's functions are an interface; strtol, atoi and the "%u" of printf are written out.
pub mod Decimal
pub mod Tests
use renderer_service_upnp.Prelude.{
  ℕ, Bool, true, false, ◌&&◌, not, List, [], ◌∷◌, ◌++◌, ◌≡◌, ◌≢◌, ◌==◌, nat_eq, ltb, ◌||◌,
}

abbrev pub Text : Type 0
Text = List ℕ

abbrev pub is_space : ℕ → Bool
is_space c = c == 32 || (ltb 8 c && ltb c 14)

-- No white space.
abbrev pub is_solid : Text → Bool
is_solid [] = true
is_solid (c ∷ t) = not (is_space c) && is_solid t

abbrev pub lacks : ℕ → Text → Bool
lacks d [] = true
lacks d (c ∷ t) = not (c == d) && lacks d t

-- g_strsplit at one character and with no bound on the parts, and g_strstrip
pub record GlibText : Type 0 where
  pub strsplit : ℕ → Text → List Text
  pub strstrip : Text → Text
  pub strsplit_last : (d : ℕ) (a : Text) → a ≢ [] → lacks d a ≡ true → strsplit d a ≡ a ∷ []
  pub strsplit_first :
      (d : ℕ) (a b : Text) → b ≢ [] → lacks d a ≡ true → strsplit d (a ++ d ∷ b) ≡ a ∷ strsplit d b
  pub strstrip_solid : (a : Text) → is_solid a ≡ true → strstrip a ≡ a
