-- ===== src/Device/Positions.antt =====
-- Where a context stands, and what a change, an addition and a removal do to the places.
use renderer_service_upnp.Prelude.{
  ℕ, zero, suc, ◌-◌, ltb, Bool, true, false, List, [], ◌∷◌, ◌++◌, Option, none, some, ◌≡◌, refl,
  ◌≢◌, ◌==◌, nat_eq, arith, if◌then◌else◌, get_elem?, some_inj, sym,
}
use renderer_service_upnp.Device.Contexts.{
  DeviceContext, Effect, find_index, change, remove_context,
}

abbrev pub Change : Type 0
Change = DeviceContext → DeviceContext × List Effect

abbrev pub changed : Change → Option DeviceContext → Option DeviceContext
changed f none = none
changed f (some c) = some (f c).0

pub get_elem?-change :
    (i j : ℕ) (f : Change) (cs : List DeviceContext)
    → get_elem? (change i f cs) j ≡ (if i == j then changed f (get_elem? cs j) else get_elem? cs j)
unfolding change
get_elem?-change i j f [] = ground arith
get_elem?-change zero zero f (c ∷ cs) = refl
get_elem?-change zero (suc j) f (c ∷ cs) = ground arith
get_elem?-change (suc i) zero f (c ∷ cs) = ground arith
get_elem?-change (suc i) (suc j) f (c ∷ cs) = ground (arith, get_elem?-change i j f cs)

-- The contexts behind the one that is removed move up.
pub get_elem?-remove_context :
    (i j : ℕ) (cs : List DeviceContext)
    → get_elem? (remove_context i cs) j ≡ (if ltb j i then get_elem? cs j else get_elem? cs (suc j))
unfolding remove_context
get_elem?-remove_context i j [] = ground arith
get_elem?-remove_context zero j (c ∷ cs) = ground arith
get_elem?-remove_context (suc i) zero (c ∷ cs) = ground arith
get_elem?-remove_context (suc i) (suc j) (c ∷ cs) = ground (arith, get_elem?-remove_context i j cs)

-- What stands in a list with one context more is that context, or stood there before.
pub get_elem?-append :
    (j : ℕ) (cs : List DeviceContext) (n c : DeviceContext)
    → get_elem? (cs ++ n ∷ []) j ≡ some c
    → c ≢ n
    → get_elem? cs j ≡ some c
get_elem?-append zero [] n c h ne = absurd (ne (sym (some_inj h)))
get_elem?-append (suc j) [] n c h ne = cc
get_elem?-append zero (x ∷ cs) n c h ne = h
get_elem?-append (suc j) (x ∷ cs) n c h ne = get_elem?-append j cs n c h ne

module _ (p : DeviceContext → Bool) where
  pub find_index-some :
      (i : ℕ) (cs : List DeviceContext)
      → find_index p cs ≡ some i
      → (c : DeviceContext) × (get_elem? cs i ≡ some c) × (p c ≡ true)
  unfolding find_index
  find_index-some i [] h = cc
  find_index-some zero (c ∷ cs) h = (c, refl, ground arith)
  find_index-some (suc i) (c ∷ cs) h = find_index-some i cs (ground arith)

  pub find_index-none :
      (i : ℕ) (c : DeviceContext) (cs : List DeviceContext)
      → find_index p cs ≡ none
      → get_elem? cs i ≡ some c
      → p c ≡ false
  unfolding find_index
  find_index-none i c [] h e = cc
  find_index-none zero c (x ∷ cs) h e = ground arith
  find_index-none (suc i) c (x ∷ cs) h e = find_index-none i c cs (ground arith) e

  pub find_index-change :
      (i : ℕ) (f : Change) (cs : List DeviceContext)
      → ((c : DeviceContext) → p (f c).0 ≡ p c)
      → find_index p (change i f cs) ≡ find_index p cs
  unfolding find_index change
  find_index-change i f [] h = refl
  find_index-change zero f (c ∷ cs) h = ground (arith, h c)
  find_index-change (suc i) f (c ∷ cs) h = ground (arith, find_index-change i f cs h)

  -- A place that is found moves as the context on it does.
  pub find_index-remove_context :
      (i k : ℕ) (cs : List DeviceContext)
      → find_index p cs ≡ some k
      → k ≢ i
      → find_index p (remove_context i cs) ≡ some (if ltb k i then k else k - 1)
  unfolding find_index remove_context
  find_index-remove_context i k [] h ne = cc
  find_index-remove_context zero k (c ∷ cs) h ne = ground arith
  find_index-remove_context (suc i) zero (c ∷ cs) h ne = ground arith
  find_index-remove_context (suc i) (suc k) (c ∷ cs) h ne =
      ground (arith, find_index-remove_context i k cs)

  pub find_index-remove_none :
      (i : ℕ) (cs : List DeviceContext)
      → find_index p cs ≡ none
      → find_index p (remove_context i cs) ≡ none
  unfolding find_index remove_context
  find_index-remove_none i [] h = refl
  find_index-remove_none zero (c ∷ cs) h = ground arith
  find_index-remove_none (suc i) (c ∷ cs) h = ground (arith, find_index-remove_none i cs)
