-- ===== src/LockedMap/Table.antt =====
-- The `std::unordered_map` of include/locked-map.hpp: entries with distinct keys.
use donkeycar_gt.Prelude.{
  ℕ, ◌+◌, ◌≤◌, ◌≡◌, refl, ◌↔◌, Bool, true, List, [], ◌∷◌, Option, none, some, arith, length,
  if◌then◌else◌, ◌&&◌, ◌==◌, ap,
}

pub record Key {ℓ} (K : Type ℓ) : Type ℓ where
  pub same : K → K → Bool
  pub same_iff : (a b : K) → (same a b ≡ true) ↔ (a ≡ b)

module _ {ℓ κ} {K : Type ℓ} {V : Type κ} ⦃key : Key K⦄ where
  open key use {same, same_iff}

  unfoldable pub find : K → List (K × V) → Option V
  find k [] = none
  find k ((j, v) ∷ entries) = if same j k then some v else find k entries

  -- `m_data[key] = value`
  unfoldable pub assign : K → V → List (K × V) → List (K × V)
  assign k v [] = (k, v) ∷ []
  assign k v ((j, old) ∷ entries) =
      if same j k then (j, v) ∷ entries else (j, old) ∷ assign k v entries

  -- How many entries a key has.
  abbrev pub entries_of : K → List (K × V) → ℕ
  entries_of k [] = 0
  entries_of k ((j, v) ∷ entries) =
      if same j k then entries_of k entries + 1 else entries_of k entries

  pub find-assign :
      (k j : K) (v : V) (m : List (K × V))
      → find j (assign k v m) ≡ (if same k j then some v else find j m)
  unfolding find assign
  find-assign k j v [] = refl
  find-assign k j v ((i, w) ∷ m) =
      ground (arith, same_iff k j, same_iff i k, same_iff i j, find-assign k j v m)

  pub entries_of-assign :
      (k j : K) (v : V) (m : List (K × V))
      → entries_of j (assign k v m)
        ≡ (if same k j && entries_of k m == 0 then entries_of j m + 1 else entries_of j m)
  unfolding assign
  entries_of-assign k j v [] = ground arith
  entries_of-assign k j v ((i, w) ∷ m) =
      ground (arith, same_iff k j, same_iff i k, same_iff i j, entries_of-assign k j v m)

  pub length-assign :
      (k : K) (v : V) (m : List (K × V))
      → length (assign k v m) ≡ (if entries_of k m == 0 then length m + 1 else length m)
  unfolding assign
  length-assign k v [] = refl
  length-assign k v ((i, w) ∷ m) = ground (arith, length-assign k v m)

  pub find-eq-none : (k : K) (m : List (K × V)) → (find k m ≡ none) ↔ (entries_of k m ≡ 0)
  unfolding find
  find-eq-none k [] = (λ _. refl, λ _. refl)
  find-eq-none k ((i, w) ∷ m) =
      let (fwd, bwd) = find-eq-none k m in (λ h. ground (arith, fwd), λ h. ground (arith, bwd))

  -- A map: every key has at most one entry.
  abbrev pub IsMap : List (K × V) → Type ℓ
  IsMap m = (k : K) → entries_of k m ≤ 1

  pub assign-IsMap : (k : K) (v : V) (m : List (K × V)) → IsMap m → IsMap (assign k v m)
  assign-IsMap k v m h j =
      ground (arith, entries_of-assign k j v m, same_iff k j, h j, ap (λ i. entries_of i m))
