-- ===== src/DeepCopy/Fresh.antt =====
-- api/v1alpha1/zz_generated.deepcopy.go: when a DeepCopyInto makes a copy that is the same and lies
-- in memory of its own, and the rules for the parts that a copy is put together from.
use gmos_k8s_operator.Prelude.{
  ℕ, suc, ◌≡◌, ◌≤◌, ◌<◌, List, [], ◌∷◌, ◌++◌, arith, String, if◌then◌else◌, eq_iff, refl,
}
use gmos_k8s_operator.Dict
use gmos_k8s_operator.Dict.{Dict}
use gmos_k8s_operator.DeepCopy.{
  Pointer, null, at, Slice, no_slice, slice, StringMap, no_map, string_map, Distinct, Copier, plain,
  copy_pointer, copy_items, copy_slice, items_addresses, SameItems, pointers, slices, copy_entries,
  copy_string_map, string_maps,
}

-- All addresses were handed out between the state `lo` and the state `hi`.
abbrev pub Within : ℕ → ℕ → List ℕ → Type 0
Within lo hi [] = lo ≤ hi
Within lo hi (a ∷ xs) = (lo ≤ a) × (a < hi) × Within lo hi xs

pub Within-≤ : (lo hi : ℕ) (xs : List ℕ) → Within lo hi xs → lo ≤ hi
Within-≤ lo hi [] h = h
Within-≤ lo hi (a ∷ xs) (_, _, h) = Within-≤ lo hi xs h

pub Within-widen :
    (lo mid hi top : ℕ) (xs : List ℕ) → lo ≤ mid → hi ≤ top → Within mid hi xs → Within lo top xs
Within-widen lo mid hi top [] p q h = omega arith
Within-widen lo mid hi top (a ∷ xs) p q (l, u, h) =
    (omega arith, omega arith, Within-widen lo mid hi top xs p q h)

Within-append :
    (lo hi : ℕ) (xs bs : List ℕ) → Within lo hi xs → Within lo hi bs → Within lo hi (xs ++ bs)
Within-append lo hi [] bs p q = q
Within-append lo hi (a ∷ xs) bs (l, u, p) q = (l, u, Within-append lo hi xs bs p q)

-- One copy is made after the other.
pub Within-++ :
    (lo mid hi : ℕ) (xs bs : List ℕ) → Within lo mid xs → Within mid hi bs → Within lo hi (xs ++ bs)
Within-++ lo mid hi xs bs p q =
    let l = Within-≤ lo mid xs p in
    let u = Within-≤ mid hi bs q in
    Within-append lo hi xs bs (Within-widen lo lo mid hi xs (omega arith) u p)
      (Within-widen lo mid hi hi bs l (omega arith) q)

-- What was allocated first holds what was allocated after it.
Within-cons : (n hi : ℕ) (xs : List ℕ) → Within (suc n) hi xs → Within n hi (n ∷ xs)
Within-cons n hi xs h =
    let u = Within-≤ (suc n) hi xs h in
    (omega arith, omega arith, Within-widen n (suc n) hi hi xs (omega arith) (omega arith) h)

pub record IsDeepCopy {A : Type 0} (c : Copier A) : Type 0 where
  pub same : (v : A) (n : ℕ) → c.Same v (c.deep_copy_into v n).0
  pub fresh :
      (v : A) (n : ℕ) → Within n (c.deep_copy_into v n).1 (c.addresses (c.deep_copy_into v n).0)

pub plain-IsDeepCopy : {A : Type 0} → IsDeepCopy (plain {A = A})
plain-IsDeepCopy = record { same = λ v n. refl; fresh = λ v n. omega arith }

module _ {A : Type 0} (c : Copier A) (law : IsDeepCopy c) where
  pointer_same : (v : Pointer A) (n : ℕ) → (pointers c).Same v (copy_pointer c v n).0
  unfolding copy_pointer
  pointer_same null n = tt
  pointer_same (at a v) n = law.same v (suc n)

  pointer_fresh :
      (v : Pointer A) (n : ℕ)
      → Within n (copy_pointer c v n).1 ((pointers c).addresses (copy_pointer c v n).0)
  unfolding copy_pointer
  pointer_fresh null n = omega arith
  pointer_fresh (at a v) n = Within-cons n _ _ (law.fresh v (suc n))

  pub pointers-IsDeepCopy : IsDeepCopy (pointers c)
  pointers-IsDeepCopy = record { same = pointer_same; fresh = pointer_fresh }

  items_same : (vs : List A) (n : ℕ) → SameItems c vs (copy_items c vs n).0
  unfolding copy_items
  items_same [] n = tt
  items_same (v ∷ vs) n = (law.same v n, items_same vs (c.deep_copy_into v n).1)

  items_fresh :
      (vs : List A) (n : ℕ)
      → Within n (copy_items c vs n).1 (items_addresses c (copy_items c vs n).0)
  unfolding copy_items
  items_fresh [] n = omega arith
  items_fresh (v ∷ vs) n =
      Within-++ n _ _ _ _ (law.fresh v n) (items_fresh vs (c.deep_copy_into v n).1)

  slice_same : (v : Slice A) (n : ℕ) → (slices c).Same v (copy_slice c v n).0
  unfolding copy_slice
  slice_same no_slice n = tt
  slice_same (slice a vs) n = items_same vs (suc n)

  slice_fresh :
      (v : Slice A) (n : ℕ)
      → Within n (copy_slice c v n).1 ((slices c).addresses (copy_slice c v n).0)
  unfolding copy_slice
  slice_fresh no_slice n = omega arith
  slice_fresh (slice a vs) n = Within-cons n _ _ (items_fresh vs (suc n))

  pub slices-IsDeepCopy : IsDeepCopy (slices c)
  slices-IsDeepCopy = record { same = slice_same; fresh = slice_fresh }

-- A key that is not visited again keeps the value that it got.
lookup-copy_entries :
    (d out : Dict String) (k : String)
    → Distinct d
    → Dict.lookup k (copy_entries d out)
      ≡ (if Dict.has_key k d then Dict.lookup k d else Dict.lookup k out)
unfolding copy_entries Dict.has_key Dict.lookup
lookup-copy_entries [] out k h = refl
lookup-copy_entries ((key, value) ∷ d) out k (new, h) =
    rw (lookup-copy_entries d (Dict.insert key value out) k h, Dict.lookup-insert)
      (ground (arith, eq_iff key k))

string_map_same : (v : StringMap) (n : ℕ) → string_maps.Same v (copy_string_map v n).0
unfolding copy_string_map
string_map_same no_map n = tt
string_map_same (string_map a d h) n =
    λ k. rw (lookup-copy_entries d [] k h) (unfold Dict.has_key Dict.lookup in ground arith)

string_map_fresh :
    (v : StringMap) (n : ℕ)
    → Within n (copy_string_map v n).1 (string_maps.addresses (copy_string_map v n).0)
unfolding copy_string_map
string_map_fresh no_map n = omega arith
string_map_fresh (string_map a d h) n = omega arith

pub string_maps-IsDeepCopy : IsDeepCopy string_maps
string_maps-IsDeepCopy = record { same = string_map_same; fresh = string_map_fresh }
