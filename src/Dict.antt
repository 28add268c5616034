-- ===== src/Dict.antt =====
-- GLib's hash tables as association lists, in the order in which a table is walked. A table holds
-- at most one entry for a key (`Distinct`); inserting under a key that is there replaces its value.
use renderer_service_upnp.Prelude.{
  ℕ, ◌+◌, ◌≡◌, refl, ◌≢◌, List, [], ◌∷◌, Option, none, some, arith, Eq, ◌==◌, if◌then◌else◌,
  Bool-cases, inl, inr, subst, some_inj,
}

module _ {ℓ} {K : Type 0} {V : Type ℓ} ⦃e : Eq K⦄ where
  -- g_hash_table_lookup
  unfoldable pub lookup : K → List (K × V) → Option V
  lookup k [] = none
  lookup k ((j, v) ∷ m) = if j == k then some v else lookup k m

  -- g_hash_table_remove
  unfoldable pub remove : K → List (K × V) → List (K × V)
  remove k [] = []
  remove k ((j, v) ∷ m) = if j == k then m else (j, v) ∷ remove k m

  -- No key stands twice.
  abbrev pub Distinct : List (K × V) → Type ℓ
  Distinct [] = Unit
  Distinct ((j, v) ∷ m) = (lookup j m ≡ none) × Distinct m

  -- g_hash_table_insert
  unfoldable pub insert : K → V → List (K × V) → List (K × V)
  insert k v [] = (k, v) ∷ []
  insert k v ((j, w) ∷ m) = if j == k then (j, v) ∷ m else (j, w) ∷ insert k v m

  pub lookup-insert :
      (key k : K) (new_v : V) (table : List (K × V))
      → lookup k (insert key new_v table) ≡ (if key == k then some new_v else lookup k table)
  unfolding lookup insert
  lookup-insert key k new_v [] = refl
  lookup-insert key k new_v ((j, w) ∷ table) =
      ground
        (arith, e.beq_iff j key, e.beq_iff key k, e.beq_iff j k, lookup-insert key k new_v table)

  pub lookup-insert_self : (k : K) (v : V) (m : List (K × V)) → lookup k (insert k v m) ≡ some v
  lookup-insert_self k v m = ground (arith, lookup-insert k k v m, e.beq_iff k k)

  pub lookup-remove_ne : (k j : K) (m : List (K × V)) → k ≢ j → lookup j (remove k m) ≡ lookup j m
  unfolding lookup remove
  lookup-remove_ne k j [] h = refl
  lookup-remove_ne k j ((i, w) ∷ m) h =
      ground (arith, e.beq_iff i k, e.beq_iff i j, lookup-remove_ne k j m h)

  pub lookup-remove_self : (k : K) (m : List (K × V)) → Distinct m → lookup k (remove k m) ≡ none
  unfolding lookup remove
  lookup-remove_self k [] d = refl
  lookup-remove_self k ((i, w) ∷ m) d = ground (arith, e.beq_iff i k, lookup-remove_self k m d.1)

  pub lookup-remove :
      (k j : K) (m : List (K × V))
      → Distinct m
      → lookup j (remove k m) ≡ (if k == j then none else lookup j m)
  lookup-remove k j m d =
      ground (arith, e.beq_iff k j, lookup-remove_self k m d, lookup-remove_ne k j m)

  pub insert-Distinct : (k : K) (v : V) (m : List (K × V)) → Distinct m → Distinct (insert k v m)
  unfolding lookup insert
  insert-Distinct k v [] d = (refl, tt)
  insert-Distinct k v ((i, w) ∷ m) d =
      ground (arith, e.beq_iff i k, e.beq_iff k i, insert-Distinct k v m d.1, lookup-insert k i v m)

  pub remove-Distinct : (k : K) (m : List (K × V)) → Distinct m → Distinct (remove k m)
  unfolding lookup remove
  remove-Distinct k [] d = tt
  remove-Distinct k ((i, w) ∷ m) d =
      ground (arith, e.beq_iff i k, remove-Distinct k m d.1, lookup-remove_ne k i m)

  -- A number summed over the entries, such as how many of them are busy.
  abbrev pub total : (V → ℕ) → List (K × V) → ℕ
  total f [] = 0
  total f ((j, v) ∷ m) = f v + total f m

  module _ (f : V → ℕ) where
    pub total-insert-some :
        (k : K) (v u : V) (m : List (K × V))
        → lookup k m ≡ some u
        → total f (insert k v m) + f u ≡ total f m + f v
    unfolding lookup insert
    total-insert-some k v u [] h = ground arith
    total-insert-some k v u ((i, w) ∷ m) h = ground (arith, total-insert-some k v u m)

    pub total-insert-none :
        (k : K) (v : V) (m : List (K × V))
        → lookup k m ≡ none
        → total f (insert k v m) ≡ total f m + f v
    unfolding lookup insert
    total-insert-none k v [] h = ground arith
    total-insert-none k v ((i, w) ∷ m) h = ground (arith, total-insert-none k v m)

    pub total-remove :
        (k : K) (u : V) (m : List (K × V))
        → lookup k m ≡ some u
        → total f (remove k m) + f u ≡ total f m
    unfolding lookup remove
    total-remove k u [] h = ground arith
    total-remove k u ((i, w) ∷ m) h = ground (arith, total-remove k u m)

  -- A property of every value.
  abbrev pub AllValues : (V → Type 0) → List (K × V) → Type 0
  AllValues P [] = Unit
  AllValues P ((j, v) ∷ m) = P v × AllValues P m

  module _ (P : V → Type 0) where
    pub lookup-AllValues :
        (k : K) (v : V) (m : List (K × V)) → AllValues P m → lookup k m ≡ some v → P v
    unfolding lookup
    lookup-AllValues k v [] a h = cc
    lookup-AllValues k v ((i, w) ∷ m) a h = elim (Bool-cases (i == k)) [
      | inl e ↦ subst P (some_inj (ground arith)) a.0
      | inr e ↦ lookup-AllValues k v m a.1 (ground arith)
    ]

    pub insert-AllValues :
        (k : K) (v : V) (m : List (K × V)) → P v → AllValues P m → AllValues P (insert k v m)
    unfolding insert
    insert-AllValues k v [] p a = (p, tt)
    insert-AllValues k v ((i, w) ∷ m) p a = elim (Bool-cases (i == k)) [
      | inl e ↦ rw e (p, a.1)
      | inr e ↦ rw e (a.0, insert-AllValues k v m p a.1)
    ]

    pub remove-AllValues : (k : K) (m : List (K × V)) → AllValues P m → AllValues P (remove k m)
    unfolding remove
    remove-AllValues k [] a = tt
    remove-AllValues k ((i, w) ∷ m) a = elim (Bool-cases (i == k)) [
      | inl e ↦ rw e a.1
      | inr e ↦ rw e (a.0, remove-AllValues k m a.1)
    ]
