-- ===== src/DeepCopy/Specs.antt =====
-- api/v1alpha1/zz_generated.deepcopy.go: the copies of the specs of both custom resources.
use gmos_k8s_operator.Prelude.{◌≡◌, ◌++◌}
use gmos_k8s_operator.DeepCopy.{
  Alloc, pure, ◌>>=◌, Pointer, Copier, copy_pointer, copy_slice, copy_string_map, pointers, slices,
  string_maps,
}
use gmos_k8s_operator.DeepCopy.Structs.{
  External, PrometheusMonitoringSpecStruct, GlideinSetSpecStruct, GlideinSetCollectionSpecStruct,
}

module _ (ext : External) where
  unfoldable pub prometheus_monitoring_spec_deep_copy_into :
      PrometheusMonitoringSpecStruct ext → Alloc (PrometheusMonitoringSpecStruct ext)
  unfolding copy_pointer
  prometheus_monitoring_spec_deep_copy_into self = do
    storage_volume ← copy_pointer ext.volume_source self.storage_volume
    pure (record self { storage_volume = storage_volume })

  abbrev pub SamePrometheusMonitoringSpec :
      PrometheusMonitoringSpecStruct ext → PrometheusMonitoringSpecStruct ext → Type 0
  SamePrometheusMonitoringSpec v w =
      (v.service_account ≡ w.service_account)
      × (pointers ext.volume_source).Same v.storage_volume w.storage_volume

  abbrev pub prometheus_monitoring_spec_copier : Copier (PrometheusMonitoringSpecStruct ext)
  prometheus_monitoring_spec_copier = record {
    deep_copy_into = prometheus_monitoring_spec_deep_copy_into;
    addresses = λ v. (pointers ext.volume_source).addresses v.storage_volume;
    Same = SamePrometheusMonitoringSpec;
  }

  unfoldable pub prometheus_monitoring_spec_deep_copy :
      Pointer (PrometheusMonitoringSpecStruct ext)
      → Alloc (Pointer (PrometheusMonitoringSpecStruct ext))
  unfolding copy_pointer
  prometheus_monitoring_spec_deep_copy self = copy_pointer prometheus_monitoring_spec_copier self

  unfoldable pub glidein_set_spec_deep_copy_into :
      GlideinSetSpecStruct ext → Alloc (GlideinSetSpecStruct ext)
  unfolding copy_string_map copy_slice
  glidein_set_spec_deep_copy_into self = do
    resources ← ext.resource_requirements.deep_copy_into self.resources
    node_selector ← copy_string_map self.node_selector
    tolerations ← copy_slice ext.toleration self.tolerations
    pure (record self {
      resources = resources;
      node_selector = node_selector;
      tolerations = tolerations;
    })

  abbrev pub SameGlideinSetSpec : GlideinSetSpecStruct ext → GlideinSetSpecStruct ext → Type 0
  SameGlideinSetSpec v w =
      (v.name ≡ w.name)
      × (v.size ≡ w.size)
      × (v.glidein_manager_url ≡ w.glidein_manager_url)
      × (v.local_collector_url ≡ w.local_collector_url)
      × ext.resource_requirements.Same v.resources w.resources
      × (v.priority_class_name ≡ w.priority_class_name)
      × string_maps.Same v.node_selector w.node_selector
      × (slices ext.toleration).Same v.tolerations w.tolerations

  abbrev pub glidein_set_spec_copier : Copier (GlideinSetSpecStruct ext)
  glidein_set_spec_copier = record {
    deep_copy_into = glidein_set_spec_deep_copy_into;
    addresses = λ v.
        ext.resource_requirements.addresses v.resources
        ++ (string_maps.addresses v.node_selector
            ++ (slices ext.toleration).addresses v.tolerations);
    Same = SameGlideinSetSpec;
  }

  unfoldable pub glidein_set_spec_deep_copy :
      Pointer (GlideinSetSpecStruct ext) → Alloc (Pointer (GlideinSetSpecStruct ext))
  unfolding copy_pointer
  glidein_set_spec_deep_copy self = copy_pointer glidein_set_spec_copier self

  unfoldable pub glidein_set_collection_spec_deep_copy_into :
      GlideinSetCollectionSpecStruct ext → Alloc (GlideinSetCollectionSpecStruct ext)
  unfolding prometheus_monitoring_spec_deep_copy_into copy_slice
  glidein_set_collection_spec_deep_copy_into self = do
    prometheus ← prometheus_monitoring_spec_deep_copy_into self.prometheus
    glidein_sets ← copy_slice glidein_set_spec_copier self.glidein_sets
    pure (record self { prometheus = prometheus; glidein_sets = glidein_sets })

  abbrev pub SameGlideinSetCollectionSpec :
      GlideinSetCollectionSpecStruct ext → GlideinSetCollectionSpecStruct ext → Type 0
  SameGlideinSetCollectionSpec v w =
      (v.glidein_manager_url ≡ w.glidein_manager_url)
      × SamePrometheusMonitoringSpec v.prometheus w.prometheus
      × (slices glidein_set_spec_copier).Same v.glidein_sets w.glidein_sets

  abbrev pub glidein_set_collection_spec_copier : Copier (GlideinSetCollectionSpecStruct ext)
  glidein_set_collection_spec_copier = record {
    deep_copy_into = glidein_set_collection_spec_deep_copy_into;
    addresses = λ v.
        prometheus_monitoring_spec_copier.addresses v.prometheus
        ++ (slices glidein_set_spec_copier).addresses v.glidein_sets;
    Same = SameGlideinSetCollectionSpec;
  }

  unfoldable pub glidein_set_collection_spec_deep_copy :
      Pointer (GlideinSetCollectionSpecStruct ext)
      → Alloc (Pointer (GlideinSetCollectionSpecStruct ext))
  unfolding copy_pointer
  glidein_set_collection_spec_deep_copy self = copy_pointer glidein_set_collection_spec_copier self
