-- ===== src/DeepCopy.antt =====
-- api/v1alpha1/zz_generated.deepcopy.go: Go values together with their memory. A pointer, a slice and
-- a map that is not nil has an address, and what is stored there; two values share memory where they
-- have an address in common. This file has the memory, and the code that all types have alike.
pub mod Fresh
pub mod Structs
pub mod Config
pub mod Specs
pub mod Objects
pub mod Lawful
pub mod Interface
use gmos_k8s_operator.Prelude.{
  ℕ, suc, ◌≡◌, refl, String, Bool, true, false, ◌||◌, List, [], ◌∷◌, ◌++◌, inl, inr, arith, ◌==◌,
  eq_iff, Bool-cases, if◌then◌else◌,
}
use gmos_k8s_operator.Dict
use gmos_k8s_operator.Dict.{Dict}

-- The state is the next free address.
abbrev pub Alloc : Type 0 → Type 0
Alloc A = ℕ → A × ℕ

abbrev pub pure : {A : Type 0} → A → Alloc A
pure a n = (a, n)

infixl 5 ◌>>=◌
abbrev pub ◌>>=◌ : {A B : Type 0} → Alloc A → (A → Alloc B) → Alloc B
◌>>=◌ m f n = let (a, n') = m n in f a n'

-- A new piece of memory, by `new` or `make`.
abbrev pub allocate : Alloc ℕ
allocate n = (n, suc n)

pub data Pointer (A : Type 0) : Type 0 where
  null : Pointer A
  at : ℕ → A → Pointer A

pub data Slice (A : Type 0) : Type 0 where
  no_slice : Slice A
  slice : ℕ → List A → Slice A

abbrev pub Distinct : Dict String → Type 0
Distinct [] = Unit
Distinct ((key, value) ∷ d) = (Dict.has_key key d ≡ false) × Distinct d

Distinct-insert :
    (key value : String) (d : Dict String) → Distinct d → Distinct (Dict.insert key value d)
unfolding Dict.insert
Distinct-insert key value [] h = (unfold Dict.has_key Dict.lookup in refl, tt)
Distinct-insert key value ((j, w) ∷ d) (fresh, h) = elim (Bool-cases (j == key)) [
  | inl same ↦ rw same (rw ((eq_iff j key).0 same) at fresh, h)
  | inr other ↦ rw other (
    rw (Dict.has_key-insert, fresh) (ground (arith, eq_iff j key, eq_iff key j)),
    Distinct-insert key value d h,
  )
]

-- map[string]string: its entries in the order in which `range` visits them, with a key once.
pub data StringMap : Type 0 where
  no_map : StringMap
  string_map : ℕ → (d : Dict String) → Distinct d → StringMap

-- A type with its DeepCopyInto, which fills `out` from `in`; what a value refers to; and when two
-- values are the same but for the addresses.
pub record Copier (A : Type 0) : Type 1 where
  pub deep_copy_into : A → Alloc A
  pub addresses : A → List ℕ
  pub Same : A → A → Type 0

-- A type without a pointer, a slice or a map: `*out = *in`.
abbrev pub plain : {A : Type 0} → Copier A
plain = record { deep_copy_into = pure; addresses = λ v. []; Same = λ v w. v ≡ w }

module _ {A : Type 0} (c : Copier A) where
  -- (*in).DeepCopyInto(*out) into a new value, unless the pointer is nil: also every DeepCopy
  unfoldable pub copy_pointer : Pointer A → Alloc (Pointer A)
  copy_pointer null = pure null
  copy_pointer (at a v) = do out ← allocate; w ← c.deep_copy_into v; pure (at out w)

  -- for i := range *in { (*in)[i].DeepCopyInto(&(*out)[i]) }
  unfoldable pub copy_items : List A → Alloc (List A)
  copy_items [] = pure []
  copy_items (v ∷ vs) = do w ← c.deep_copy_into v; ws ← copy_items vs; pure (w ∷ ws)

  unfoldable pub copy_slice : Slice A → Alloc (Slice A)
  unfolding copy_items
  copy_slice no_slice = pure no_slice
  copy_slice (slice a vs) = do out ← allocate; ws ← copy_items vs; pure (slice out ws)

  abbrev pub pointer_addresses : Pointer A → List ℕ
  pointer_addresses null = []
  pointer_addresses (at a v) = a ∷ c.addresses v

  abbrev pub items_addresses : List A → List ℕ
  items_addresses [] = []
  items_addresses (v ∷ vs) = c.addresses v ++ items_addresses vs

  abbrev pub slice_addresses : Slice A → List ℕ
  slice_addresses no_slice = []
  slice_addresses (slice a vs) = a ∷ items_addresses vs

  abbrev pub SamePointer : Pointer A → Pointer A → Type 0
  SamePointer null null = Unit
  SamePointer (at a v) (at b w) = c.Same v w
  SamePointer _ _ = ⊥

  abbrev pub SameItems : List A → List A → Type 0
  SameItems [] [] = Unit
  SameItems (v ∷ vs) (w ∷ ws) = c.Same v w × SameItems vs ws
  SameItems _ _ = ⊥

  abbrev pub SameSlice : Slice A → Slice A → Type 0
  SameSlice no_slice no_slice = Unit
  SameSlice (slice a vs) (slice b ws) = SameItems vs ws
  SameSlice _ _ = ⊥

  abbrev pub pointers : Copier (Pointer A)
  pointers = record {
    deep_copy_into = copy_pointer;
    addresses = pointer_addresses;
    Same = SamePointer;
  }

  abbrev pub slices : Copier (Slice A)
  slices = record { deep_copy_into = copy_slice; addresses = slice_addresses; Same = SameSlice }

-- for key, val := range *in { (*out)[key] = val }
unfoldable pub copy_entries : Dict String → Dict String → Dict String
copy_entries [] out = out
copy_entries ((key, value) ∷ entries) out = copy_entries entries (Dict.insert key value out)

pub Distinct-copy_entries : (d out : Dict String) → Distinct out → Distinct (copy_entries d out)
unfolding copy_entries
Distinct-copy_entries [] out h = h
Distinct-copy_entries ((key, value) ∷ d) out h =
    Distinct-copy_entries d (Dict.insert key value out) (Distinct-insert key value out h)

unfoldable pub copy_string_map : StringMap → Alloc StringMap
unfolding copy_entries
copy_string_map no_map = pure no_map
copy_string_map (string_map a entries distinct) = do
  out ← allocate
  pure (string_map out (copy_entries entries []) (Distinct-copy_entries entries [] tt))

abbrev pub string_map_addresses : StringMap → List ℕ
string_map_addresses no_map = []
string_map_addresses (string_map a entries distinct) = a ∷ []

abbrev pub SameStringMap : StringMap → StringMap → Type 0
SameStringMap no_map no_map = Unit
SameStringMap (string_map a d _) (string_map b e _) =
    (k : String) → Dict.lookup k d ≡ Dict.lookup k e
SameStringMap _ _ = ⊥

abbrev pub string_maps : Copier StringMap
string_maps = record {
  deep_copy_into = copy_string_map;
  addresses = string_map_addresses;
  Same = SameStringMap;
}
