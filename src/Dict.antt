-- ===== src/Dict.antt =====
-- Go maps with string keys, as association lists. The order of the entries stands for the order
-- in which a `range` loop happens to visit them.
use gmos_k8s_operator.Prelude.{
  String, ◌≡◌, refl, Option, none, some, Bool, true, false, not, ◌&&◌, ◌||◌, List, [], ◌∷◌, arith,
  ◌==◌, eq_iff, if◌then◌else◌, Bool-cases, inl, inr, ap,
}

abbrev pub Dict {ℓ} : Type ℓ → Type ℓ
Dict V = List (String × V)

module _ {ℓ} {V : Type ℓ} where
  -- v, ok := m[k]
  unfoldable pub lookup : String → Dict V → Option V
  lookup k [] = none
  lookup k ((j, v) ∷ d) = if j == k then some v else lookup k d

  -- m[k] = v
  unfoldable pub insert : String → V → Dict V → Dict V
  insert k v [] = (k, v) ∷ []
  insert k v ((j, w) ∷ d) = if j == k then (k, v) ∷ d else (j, w) ∷ insert k v d

  -- delete(m, k)
  unfoldable pub erase : String → Dict V → Dict V
  erase k [] = []
  erase k ((j, v) ∷ d) = let rest = erase k d in if j == k then rest else (j, v) ∷ rest

  unfoldable pub is_empty : Dict V → Bool
  is_empty [] = true
  is_empty (_ ∷ _) = false

  unfoldable pub has_key : String → Dict V → Bool
  has_key k d = elim (lookup k d) [ some _ ↦ true | none ↦ false ]

  pub lookup-insert :
      (j k : String) (v : V) (d : Dict V)
      → lookup j (insert k v d) ≡ (if k == j then some v else lookup j d)
  unfolding lookup insert
  lookup-insert j k v [] = refl
  lookup-insert j k v ((i, w) ∷ d) =
      ground (arith, lookup-insert j k v d, eq_iff k j, eq_iff i k, eq_iff i j)

  pub insert_again : (k : String) (v w : V) (d : Dict V) → insert k v (insert k w d) ≡ insert k v d
  unfolding insert
  insert_again k v w [] = ground (arith, eq_iff k k)
  insert_again k v w ((i, u) ∷ d) = elim (Bool-cases (i == k)) [
    | inl same ↦ rw same (ground (arith, eq_iff k k))
    | inr other ↦ rw other (rw other (ap (λ rest. (i, u) ∷ rest) (insert_again k v w d)))
  ]

  pub lookup-is_empty : (k : String) (d : Dict V) {v : V} → lookup k d ≡ some v → is_empty d ≡ false
  unfolding lookup is_empty
  lookup-is_empty k [] h = cc
  lookup-is_empty k (_ ∷ _) h = refl

  pub is_empty-insert : (k : String) (v : V) (d : Dict V) → is_empty (insert k v d) ≡ false
  unfolding insert is_empty
  is_empty-insert k v [] = refl
  is_empty-insert k v ((j, w) ∷ d) = ground arith

  pub lookup-nil_of_empty : (k : String) (d : Dict V) → is_empty d ≡ true → lookup k d ≡ none
  unfolding lookup is_empty
  lookup-nil_of_empty k [] h = refl
  lookup-nil_of_empty k (_ ∷ _) h = cc

  pub lookup-erase :
      (j k : String) (d : Dict V) → lookup j (erase k d) ≡ (if k == j then none else lookup j d)
  unfolding lookup erase
  lookup-erase j k [] = ground arith
  lookup-erase j k ((i, w) ∷ d) =
      ground (arith, lookup-erase j k d, eq_iff k j, eq_iff i k, eq_iff i j)

module _ {ℓ} {V : Type ℓ} where
  pub has_key-insert :
      (j k : String) (v : V) (d : Dict V) → has_key j (insert k v d) ≡ (k == j || has_key j d)
  unfolding has_key
  has_key-insert j k v d = ground (arith, lookup-insert j k v d)

  pub has_key-erase :
      (j k : String) (d : Dict V) → has_key j (erase k d) ≡ (not (k == j) && has_key j d)
  unfolding has_key
  has_key-erase j k d = ground (arith, lookup-erase j k d)

pub lookup-nil {ℓ} : {V : Type ℓ} (k : String) → lookup {V = V} k [] ≡ none
unfolding lookup
lookup-nil k = refl

pub ruleset dict_laws = (lookup-nil, lookup-insert, lookup-erase)
