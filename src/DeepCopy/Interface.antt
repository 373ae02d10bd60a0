-- ===== src/DeepCopy/Interface.antt =====
-- api/v1alpha1/zz_generated.deepcopy.go: the copies that DeepCopyObject makes.
use gmos_k8s_operator.Prelude.{ℕ, List, Option, none, some, Bool, true, false, ◌≡◌, refl}
use gmos_k8s_operator.DeepCopy.{Pointer, null, at, Copier, copy_pointer, pointers}
use gmos_k8s_operator.DeepCopy.Fresh.{Within, IsDeepCopy, pointers-IsDeepCopy}
use gmos_k8s_operator.DeepCopy.Structs.{External}
use gmos_k8s_operator.DeepCopy.Objects.{
  Object, glidein_set, glidein_set_collection, glidein_set_list, glidein_set_collection_list,
  as_object, glidein_set_copier, glidein_set_deep_copy, glidein_set_deep_copy_object,
  glidein_set_collection_copier, glidein_set_collection_deep_copy,
  glidein_set_collection_deep_copy_object, glidein_set_list_copier, glidein_set_list_deep_copy,
  glidein_set_list_deep_copy_object, glidein_set_collection_list_copier,
  glidein_set_collection_list_deep_copy, glidein_set_collection_list_deep_copy_object,
  deep_copy_object,
}
use gmos_k8s_operator.DeepCopy.Lawful.{
  IsExternal, glidein_set-IsDeepCopy, glidein_set_collection-IsDeepCopy,
  glidein_set_list-IsDeepCopy, glidein_set_collection_list-IsDeepCopy,
}

abbrev pub is_null : {A : Type 0} → Pointer A → Bool
is_null null = true
is_null (at a v) = false

module _ (ext : External) where
  -- The pointer in the object is nil.
  abbrev pub holds_null : Object ext → Bool
  holds_null (glidein_set p) = is_null p
  holds_null (glidein_set_collection p) = is_null p
  holds_null (glidein_set_list p) = is_null p
  holds_null (glidein_set_collection_list p) = is_null p

  abbrev pub object_addresses : Object ext → List ℕ
  object_addresses (glidein_set p) = (pointers (glidein_set_copier ext)).addresses p
  object_addresses (glidein_set_collection p) =
      (pointers (glidein_set_collection_copier ext)).addresses p
  object_addresses (glidein_set_list p) = (pointers (glidein_set_list_copier ext)).addresses p
  object_addresses (glidein_set_collection_list p) =
      (pointers (glidein_set_collection_list_copier ext)).addresses p

  -- Objects of one type, with the same contents.
  abbrev pub SameObject : Object ext → Object ext → Type 0
  SameObject (glidein_set p) (glidein_set q) = (pointers (glidein_set_copier ext)).Same p q
  SameObject (glidein_set_collection p) (glidein_set_collection q) =
      (pointers (glidein_set_collection_copier ext)).Same p q
  SameObject (glidein_set_list p) (glidein_set_list q) =
      (pointers (glidein_set_list_copier ext)).Same p q
  SameObject (glidein_set_collection_list p) (glidein_set_collection_list q) =
      (pointers (glidein_set_collection_list_copier ext)).Same p q
  SameObject _ _ = ⊥

  -- What DeepCopyObject made of `o` while the next free address went from `n` to `n'`.
  abbrev pub IsObjectCopy : Object ext → ℕ → Option (Object ext) → ℕ → Type 0
  IsObjectCopy o n none n' = (holds_null o ≡ true) × (n' ≡ n)
  IsObjectCopy o n (some c) n' =
      (holds_null o ≡ false)
      × (holds_null c ≡ false)
      × (SameObject o c × Within n n' (object_addresses c))

  module _ {A : Type 0} (c : Copier A) (law : IsDeepCopy c) where
    -- DeepCopy of a pointer that is not nil
    copied :
        (a : ℕ) (v : A) (n : ℕ)
        → (pointers c).Same (at a v) (copy_pointer c (at a v) n).0
          × Within n
              (copy_pointer c (at a v) n).1
              ((pointers c).addresses (copy_pointer c (at a v) n).0)
    copied a v n =
        ((pointers-IsDeepCopy c law).same (at a v) n, (pointers-IsDeepCopy c law).fresh (at a v) n)

  -- Where Kubernetes' own types are deep copied by their DeepCopyInto: DeepCopyObject of a nil
  -- pointer is nil and not an object that holds a nil pointer. Of any other object it is an object
  -- of the same type with the same contents, at every depth, and each pointer, slice and map in it
  -- has an address that was handed out for this copy: it shares no memory with what was there
  -- before.
  pub deep_copy_object-IsObjectCopy :
      (law : IsExternal ext) (o : Object ext) (n : ℕ)
      → IsObjectCopy o n (deep_copy_object ext o n).0 (deep_copy_object ext o n).1
  unfolding deep_copy_object as_object copy_pointer glidein_set_deep_copy_object
      glidein_set_deep_copy glidein_set_collection_deep_copy_object glidein_set_collection_deep_copy
      glidein_set_list_deep_copy_object glidein_set_list_deep_copy
      glidein_set_collection_list_deep_copy_object glidein_set_collection_list_deep_copy
  deep_copy_object-IsObjectCopy law (glidein_set null) n = (refl, refl)
  deep_copy_object-IsObjectCopy law (glidein_set (at a v)) n =
      (refl, refl, copied (glidein_set_copier ext) (glidein_set-IsDeepCopy ext law) a v n)
  deep_copy_object-IsObjectCopy law (glidein_set_collection null) n = (refl, refl)
  deep_copy_object-IsObjectCopy law (glidein_set_collection (at a v)) n = (
    refl,
    refl,
    copied (glidein_set_collection_copier ext) (glidein_set_collection-IsDeepCopy ext law) a v n,
  )
  deep_copy_object-IsObjectCopy law (glidein_set_list null) n = (refl, refl)
  deep_copy_object-IsObjectCopy law (glidein_set_list (at a v)) n =
      (refl, refl, copied (glidein_set_list_copier ext) (glidein_set_list-IsDeepCopy ext law) a v n)
  deep_copy_object-IsObjectCopy law (glidein_set_collection_list null) n = (refl, refl)
  deep_copy_object-IsObjectCopy law (glidein_set_collection_list (at a v)) n = (
    refl,
    refl,
    copied (glidein_set_collection_list_copier ext) (glidein_set_collection_list-IsDeepCopy ext law)
        a v n,
  )
