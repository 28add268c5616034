-- ===== src/Glib/Tests.antt =====
-- GLib's functions on text as its documentation describes them, at which theorems are applied.
use renderer_service_upnp.Prelude.{
  ℕ, true, false, List, [], ◌∷◌, ◌++◌, ◌≡◌, ◌≢◌, refl, ap, sym, ◌∙◌, ◌==◌, nat_eq, if◌then◌else◌,
  arith,
}
use renderer_service_upnp.Glib.{Text, GlibText, is_space, is_solid, lacks}

cons_first : ℕ → List Text → List Text
cons_first c [] = (c ∷ []) ∷ []
cons_first c (p ∷ ps) = (c ∷ p) ∷ ps

pub pieces : ℕ → Text → List Text
pieces d [] = [] ∷ []
pieces d (c ∷ t) = let rest = pieces d t in if c == d then [] ∷ rest else cons_first c rest

pub strsplit : ℕ → Text → List Text
strsplit d [] = []
strsplit d (c ∷ t) = pieces d (c ∷ t)

pub strip_start : Text → Text
strip_start [] = []
strip_start (c ∷ t) = let rest = strip_start t in if is_space c then rest else c ∷ t

cons_end : ℕ → Text → Text
cons_end c [] = if is_space c then [] else c ∷ []
cons_end c (x ∷ xs) = c ∷ x ∷ xs

pub strip_end : Text → Text
strip_end [] = []
strip_end (c ∷ t) = cons_end c (strip_end t)

pub pieces-last : (d : ℕ) (a : Text) → lacks d a ≡ true → pieces d a ≡ a ∷ []
unfolding pieces cons_first
pieces-last d [] h = refl
pieces-last d (c ∷ a) h = ground (arith, pieces-last d a)

pub pieces-first : (d : ℕ) (a b : Text) → lacks d a ≡ true → pieces d (a ++ d ∷ b) ≡ a ∷ pieces d b
unfolding pieces cons_first
pieces-first d [] b h = ground arith
pieces-first d (c ∷ a) b h = ground (arith, pieces-first d a b)

pub strsplit-pieces : (d : ℕ) (t : Text) → t ≢ [] → strsplit d t ≡ pieces d t
unfolding strsplit
strsplit-pieces d [] h = absurd (h refl)
strsplit-pieces d (c ∷ t) h = refl

pub joined-nonempty : (a b : Text) (d : ℕ) → a ++ d ∷ b ≢ []
joined-nonempty [] b d = cc
joined-nonempty (c ∷ a) b d = cc

pub strip_start-solid : (a : Text) → is_solid a ≡ true → strip_start a ≡ a
unfolding strip_start
strip_start-solid [] h = refl
strip_start-solid (c ∷ a) h = ground arith

cons_end-solid : (c : ℕ) (a : Text) → is_space c ≡ false → cons_end c a ≡ c ∷ a
unfolding cons_end
cons_end-solid c [] h = ground arith
cons_end-solid c (x ∷ a) h = refl

pub strip_end-solid : (a : Text) → is_solid a ≡ true → strip_end a ≡ a
unfolding strip_end cons_end
strip_end-solid [] h = refl
strip_end-solid (c ∷ a) h =
    ap (cons_end c) (strip_end-solid a (ground arith)) ∙ cons_end-solid c a (ground arith)

abbrev pub documented : GlibText
documented = record {
  strsplit = strsplit;
  strstrip = λ t. strip_end (strip_start t);
  strsplit_last = λ d a n h. strsplit-pieces d a n ∙ pieces-last d a h;
  strsplit_first = λ d a b n h.
      strsplit-pieces d (a ++ d ∷ b) (joined-nonempty a b d)
      ∙ pieces-first d a b h
      ∙ ap (λ ps. a ∷ ps) (sym (strsplit-pieces d b n));
  strstrip_solid = λ a h. ap strip_end (strip_start-solid a h) ∙ strip_end-solid a h;
}
