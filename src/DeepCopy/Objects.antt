-- ===== src/DeepCopy/Objects.antt =====
-- api/v1alpha1/zz_generated.deepcopy.go: the copies of both custom resources and of their lists, and
-- DeepCopyObject of the four, by which a runtime.Object is copied.
use gmos_k8s_operator.Prelude.{◌≡◌, ◌++◌, Option, none, some}
use gmos_k8s_operator.DeepCopy.{
  Alloc, pure, ◌>>=◌, Pointer, null, at, Copier, copy_pointer, copy_slice, pointers, slices,
}
use gmos_k8s_operator.DeepCopy.Structs.{
  External, GlideinSetStruct, GlideinSetCollectionStruct, GlideinSetList, GlideinSetCollectionList,
}
use gmos_k8s_operator.DeepCopy.Config.{pilot_set_namespace_config_copier}
use gmos_k8s_operator.DeepCopy.Specs.{
  glidein_set_spec_deep_copy_into, glidein_set_spec_copier,
  glidein_set_collection_spec_deep_copy_into, glidein_set_collection_spec_copier,
}

module _ (ext : External) where
  -- runtime.Object holding a pointer to a type of this group; nil has no type.
  pub data Object : Type 0 where
    glidein_set : Pointer (GlideinSetStruct ext) → Object
    glidein_set_collection : Pointer (GlideinSetCollectionStruct ext) → Object
    glidein_set_list : Pointer (GlideinSetList ext) → Object
    glidein_set_collection_list : Pointer (GlideinSetCollectionList ext) → Object

  -- if c := in.DeepCopy(); c != nil { return c }; return nil
  unfoldable pub as_object : {A : Type 0} → (Pointer A → Object) → Pointer A → Option Object
  as_object wrap null = none
  as_object wrap (at a v) = some (wrap (at a v))

  unfoldable pub glidein_set_deep_copy_into : GlideinSetStruct ext → Alloc (GlideinSetStruct ext)
  unfolding glidein_set_spec_deep_copy_into copy_pointer
  glidein_set_deep_copy_into self = do
    object_meta ← ext.object_meta.deep_copy_into self.object_meta
    spec ← glidein_set_spec_deep_copy_into ext self.spec
    remote_manifest ← copy_pointer pilot_set_namespace_config_copier self.remote_manifest
    pure (record self { object_meta = object_meta; spec = spec; remote_manifest = remote_manifest })

  abbrev pub SameGlideinSet : GlideinSetStruct ext → GlideinSetStruct ext → Type 0
  SameGlideinSet v w =
      (v.type_meta ≡ w.type_meta)
      × ext.object_meta.Same v.object_meta w.object_meta
      × (glidein_set_spec_copier ext).Same v.spec w.spec
      × (pointers pilot_set_namespace_config_copier).Same v.remote_manifest w.remote_manifest
      × (v.status ≡ w.status)

  abbrev pub glidein_set_copier : Copier (GlideinSetStruct ext)
  glidein_set_copier = record {
    deep_copy_into = glidein_set_deep_copy_into;
    addresses = λ v.
        ext.object_meta.addresses v.object_meta
        ++ ((glidein_set_spec_copier ext).addresses v.spec
            ++ (pointers pilot_set_namespace_config_copier).addresses v.remote_manifest);
    Same = SameGlideinSet;
  }

  unfoldable pub glidein_set_deep_copy :
      Pointer (GlideinSetStruct ext) → Alloc (Pointer (GlideinSetStruct ext))
  unfolding copy_pointer
  glidein_set_deep_copy self = copy_pointer glidein_set_copier self

  unfoldable pub glidein_set_deep_copy_object :
      Pointer (GlideinSetStruct ext) → Alloc (Option Object)
  unfolding glidein_set_deep_copy as_object
  glidein_set_deep_copy_object self = do
    c ← glidein_set_deep_copy self
    pure (as_object glidein_set c)

  unfoldable pub glidein_set_collection_deep_copy_into :
      GlideinSetCollectionStruct ext → Alloc (GlideinSetCollectionStruct ext)
  unfolding glidein_set_collection_spec_deep_copy_into
  glidein_set_collection_deep_copy_into self = do
    object_meta ← ext.object_meta.deep_copy_into self.object_meta
    spec ← glidein_set_collection_spec_deep_copy_into ext self.spec
    pure (record self { object_meta = object_meta; spec = spec })

  abbrev pub SameGlideinSetCollection :
      GlideinSetCollectionStruct ext → GlideinSetCollectionStruct ext → Type 0
  SameGlideinSetCollection v w =
      (v.type_meta ≡ w.type_meta)
      × ext.object_meta.Same v.object_meta w.object_meta
      × (glidein_set_collection_spec_copier ext).Same v.spec w.spec
      × (v.status ≡ w.status)

  abbrev pub glidein_set_collection_copier : Copier (GlideinSetCollectionStruct ext)
  glidein_set_collection_copier = record {
    deep_copy_into = glidein_set_collection_deep_copy_into;
    addresses = λ v.
        ext.object_meta.addresses v.object_meta
        ++ (glidein_set_collection_spec_copier ext).addresses v.spec;
    Same = SameGlideinSetCollection;
  }

  unfoldable pub glidein_set_collection_deep_copy :
      Pointer (GlideinSetCollectionStruct ext) → Alloc (Pointer (GlideinSetCollectionStruct ext))
  unfolding copy_pointer
  glidein_set_collection_deep_copy self = copy_pointer glidein_set_collection_copier self

  unfoldable pub glidein_set_collection_deep_copy_object :
      Pointer (GlideinSetCollectionStruct ext) → Alloc (Option Object)
  unfolding glidein_set_collection_deep_copy as_object
  glidein_set_collection_deep_copy_object self = do
    c ← glidein_set_collection_deep_copy self
    pure (as_object glidein_set_collection c)

  unfoldable pub glidein_set_list_deep_copy_into : GlideinSetList ext → Alloc (GlideinSetList ext)
  unfolding copy_slice
  glidein_set_list_deep_copy_into self = do
    list_meta ← ext.list_meta.deep_copy_into self.list_meta
    items ← copy_slice glidein_set_copier self.items
    pure (record self { list_meta = list_meta; items = items })

  abbrev pub SameGlideinSetList : GlideinSetList ext → GlideinSetList ext → Type 0
  SameGlideinSetList v w =
      (v.type_meta ≡ w.type_meta)
      × ext.list_meta.Same v.list_meta w.list_meta
      × (slices glidein_set_copier).Same v.items w.items

  abbrev pub glidein_set_list_copier : Copier (GlideinSetList ext)
  glidein_set_list_copier = record {
    deep_copy_into = glidein_set_list_deep_copy_into;
    addresses =
        λ v. ext.list_meta.addresses v.list_meta ++ (slices glidein_set_copier).addresses v.items;
    Same = SameGlideinSetList;
  }

  unfoldable pub glidein_set_list_deep_copy :
      Pointer (GlideinSetList ext) → Alloc (Pointer (GlideinSetList ext))
  unfolding copy_pointer
  glidein_set_list_deep_copy self = copy_pointer glidein_set_list_copier self

  unfoldable pub glidein_set_list_deep_copy_object :
      Pointer (GlideinSetList ext) → Alloc (Option Object)
  unfolding glidein_set_list_deep_copy as_object
  glidein_set_list_deep_copy_object self = do
    c ← glidein_set_list_deep_copy self
    pure (as_object glidein_set_list c)

  unfoldable pub glidein_set_collection_list_deep_copy_into :
      GlideinSetCollectionList ext → Alloc (GlideinSetCollectionList ext)
  unfolding copy_slice
  glidein_set_collection_list_deep_copy_into self = do
    list_meta ← ext.list_meta.deep_copy_into self.list_meta
    items ← copy_slice glidein_set_collection_copier self.items
    pure (record self { list_meta = list_meta; items = items })

  abbrev pub SameGlideinSetCollectionList :
      GlideinSetCollectionList ext → GlideinSetCollectionList ext → Type 0
  SameGlideinSetCollectionList v w =
      (v.type_meta ≡ w.type_meta)
      × ext.list_meta.Same v.list_meta w.list_meta
      × (slices glidein_set_collection_copier).Same v.items w.items

  abbrev pub glidein_set_collection_list_copier : Copier (GlideinSetCollectionList ext)
  glidein_set_collection_list_copier = record {
    deep_copy_into = glidein_set_collection_list_deep_copy_into;
    addresses = λ v.
        ext.list_meta.addresses v.list_meta
        ++ (slices glidein_set_collection_copier).addresses v.items;
    Same = SameGlideinSetCollectionList;
  }

  unfoldable pub glidein_set_collection_list_deep_copy :
      Pointer (GlideinSetCollectionList ext) → Alloc (Pointer (GlideinSetCollectionList ext))
  unfolding copy_pointer
  glidein_set_collection_list_deep_copy self = copy_pointer glidein_set_collection_list_copier self

  unfoldable pub glidein_set_collection_list_deep_copy_object :
      Pointer (GlideinSetCollectionList ext) → Alloc (Option Object)
  unfolding glidein_set_collection_list_deep_copy as_object
  glidein_set_collection_list_deep_copy_object self = do
    c ← glidein_set_collection_list_deep_copy self
    pure (as_object glidein_set_collection_list c)

  -- The method call on a runtime.Object.
  unfoldable pub deep_copy_object : Object → Alloc (Option Object)
  unfolding glidein_set_deep_copy_object glidein_set_collection_deep_copy_object
      glidein_set_list_deep_copy_object glidein_set_collection_list_deep_copy_object
  deep_copy_object (glidein_set self) = glidein_set_deep_copy_object self
  deep_copy_object (glidein_set_collection self) = glidein_set_collection_deep_copy_object self
  deep_copy_object (glidein_set_list self) = glidein_set_list_deep_copy_object self
  deep_copy_object (glidein_set_collection_list self) =
      glidein_set_collection_list_deep_copy_object self
