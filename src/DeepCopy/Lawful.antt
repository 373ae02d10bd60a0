-- ===== src/DeepCopy/Lawful.antt =====
-- api/v1alpha1/zz_generated.deepcopy.go: the laws of a deep copy for each
-- DeepCopyInto, from those of its parts.
use gmos_k8s_operator.Prelude.{refl}
use gmos_k8s_operator.DeepCopy.{plain}
use gmos_k8s_operator.DeepCopy.Fresh.{
  Within-++, IsDeepCopy, plain-IsDeepCopy, pointers-IsDeepCopy, slices-IsDeepCopy,
  string_maps-IsDeepCopy,
}
use gmos_k8s_operator.DeepCopy.Structs.{External}
use gmos_k8s_operator.DeepCopy.Config.{
  pilot_set_namespace_config_deep_copy_into, pilot_set_namespace_config_copier,
}
use gmos_k8s_operator.DeepCopy.Specs.{
  prometheus_monitoring_spec_deep_copy_into, prometheus_monitoring_spec_copier,
  glidein_set_spec_deep_copy_into, glidein_set_spec_copier,
  glidein_set_collection_spec_deep_copy_into, glidein_set_collection_spec_copier,
}
use gmos_k8s_operator.DeepCopy.Objects.{
  glidein_set_deep_copy_into, glidein_set_copier, glidein_set_collection_deep_copy_into,
  glidein_set_collection_copier, glidein_set_list_deep_copy_into, glidein_set_list_copier,
  glidein_set_collection_list_deep_copy_into, glidein_set_collection_list_copier,
}

pub pilot_set_namespace_config-IsDeepCopy : IsDeepCopy pilot_set_namespace_config_copier
unfolding pilot_set_namespace_config_deep_copy_into
pilot_set_namespace_config-IsDeepCopy = record {
  same = λ v n.
      let env = slices-IsDeepCopy plain plain-IsDeepCopy in
      (
        refl,
        refl,
        refl,
        refl,
        refl,
        env.same v.env n,
        (slices-IsDeepCopy plain plain-IsDeepCopy).same v.command _,
        refl,
        refl,
        refl,
        refl,
      );
  fresh = λ v n.
      Within-++ n _ _ _ _ ((slices-IsDeepCopy plain plain-IsDeepCopy).fresh v.env n)
        ((slices-IsDeepCopy plain plain-IsDeepCopy).fresh v.command _);
}

-- Kubernetes' own types are deep copied by their DeepCopyInto.
pub record IsExternal (ext : External) : Type 1 where
  pub object_meta : IsDeepCopy ext.object_meta
  pub list_meta : IsDeepCopy ext.list_meta
  pub resource_requirements : IsDeepCopy ext.resource_requirements
  pub toleration : IsDeepCopy ext.toleration
  pub volume_source : IsDeepCopy ext.volume_source

module _ (ext : External) (law : IsExternal ext) where
  prometheus_monitoring_spec-IsDeepCopy : IsDeepCopy (prometheus_monitoring_spec_copier ext)
  unfolding prometheus_monitoring_spec_deep_copy_into
  prometheus_monitoring_spec-IsDeepCopy =
      let volume = pointers-IsDeepCopy ext.volume_source law.volume_source in
      record {
        same = λ v n. (refl, volume.same v.storage_volume n);
        fresh = λ v n. volume.fresh v.storage_volume n;
      }

  pub glidein_set_spec-IsDeepCopy : IsDeepCopy (glidein_set_spec_copier ext)
  unfolding glidein_set_spec_deep_copy_into
  glidein_set_spec-IsDeepCopy =
      let resources = law.resource_requirements in
      let tolerations = slices-IsDeepCopy ext.toleration law.toleration in
      record {
        same = λ v n. (
          refl,
          refl,
          refl,
          refl,
          resources.same v.resources n,
          refl,
          string_maps-IsDeepCopy.same v.node_selector _,
          tolerations.same v.tolerations _,
        );
        fresh = λ v n. Within-++ n _ _ _ _ (resources.fresh v.resources n) (
            Within-++ _ _ _ _ _ (string_maps-IsDeepCopy.fresh v.node_selector _)
              (tolerations.fresh v.tolerations _));
      }

  glidein_set_collection_spec-IsDeepCopy : IsDeepCopy (glidein_set_collection_spec_copier ext)
  unfolding glidein_set_collection_spec_deep_copy_into
  glidein_set_collection_spec-IsDeepCopy =
      let sets = slices-IsDeepCopy (glidein_set_spec_copier ext) glidein_set_spec-IsDeepCopy in
      let prometheus = prometheus_monitoring_spec-IsDeepCopy in
      record {
        same = λ v n. (refl, prometheus.same v.prometheus n, sets.same v.glidein_sets _);
        fresh = λ v n.
            Within-++ n _ _ _ _ (prometheus.fresh v.prometheus n) (sets.fresh v.glidein_sets _);
      }

  pub glidein_set-IsDeepCopy : IsDeepCopy (glidein_set_copier ext)
  unfolding glidein_set_deep_copy_into
  glidein_set-IsDeepCopy =
      let spec = glidein_set_spec-IsDeepCopy in
      let config = pilot_set_namespace_config-IsDeepCopy in
      let manifest = pointers-IsDeepCopy pilot_set_namespace_config_copier config in
      record {
        same = λ v n. (
          refl,
          law.object_meta.same v.object_meta n,
          spec.same v.spec _,
          manifest.same v.remote_manifest _,
          refl,
        );
        fresh = λ v n.
            Within-++ n _ _ _ _ (law.object_meta.fresh v.object_meta n)
              (Within-++ _ _ _ _ _ (spec.fresh v.spec _) (manifest.fresh v.remote_manifest _));
      }

  pub glidein_set_collection-IsDeepCopy : IsDeepCopy (glidein_set_collection_copier ext)
  unfolding glidein_set_collection_deep_copy_into
  glidein_set_collection-IsDeepCopy =
      let spec = glidein_set_collection_spec-IsDeepCopy in
      record {
        same = λ v n. (refl, law.object_meta.same v.object_meta n, spec.same v.spec _, refl);
        fresh = λ v n.
            Within-++ n _ _ _ _ (law.object_meta.fresh v.object_meta n) (spec.fresh v.spec _);
      }

  pub glidein_set_list-IsDeepCopy : IsDeepCopy (glidein_set_list_copier ext)
  unfolding glidein_set_list_deep_copy_into
  glidein_set_list-IsDeepCopy =
      let items = slices-IsDeepCopy (glidein_set_copier ext) glidein_set-IsDeepCopy in
      record {
        same = λ v n. (refl, law.list_meta.same v.list_meta n, items.same v.items _);
        fresh =
            λ v n. Within-++ n _ _ _ _ (law.list_meta.fresh v.list_meta n) (items.fresh v.items _);
      }

  pub glidein_set_collection_list-IsDeepCopy : IsDeepCopy (glidein_set_collection_list_copier ext)
  unfolding glidein_set_collection_list_deep_copy_into
  glidein_set_collection_list-IsDeepCopy =
      let items =
        slices-IsDeepCopy (glidein_set_collection_copier ext) glidein_set_collection-IsDeepCopy in
      record {
        same = λ v n. (refl, law.list_meta.same v.list_meta n, items.same v.items _);
        fresh =
            λ v n. Within-++ n _ _ _ _ (law.list_meta.fresh v.list_meta n) (items.fresh v.items _);
      }
