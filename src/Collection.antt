-- ===== src/Collection.antt =====
-- internal/controller/glideinsetcollection_controller.go: the controller of GlideinSetCollections.
pub mod Wanted
pub mod Upserts
pub mod Deletions
pub mod Converge
pub mod Idempotent
pub mod Collector
pub mod Monitoring
pub mod Whole
use gmos_k8s_operator.Prelude.{
  String, ◌<>◌, Bool, true, false, not, none, some, List, [], ◌∷◌, ◌==◌, if◌then◌else◌,
}
use gmos_k8s_operator.Exec.{Exec, pure, raise, lift, gets, attempt, with_new, for_each, ◌>>=◌, ◌>>◌}
use gmos_k8s_operator.Types.{
  K8s, ObjectMeta, NamespacedName, GlideinSet, GlideinSetSpec, GlideinSetCollection,
}
use gmos_k8s_operator.ResourceName.{rn_collector, name_for}
use gmos_k8s_operator.Kube.{Kube, collection_meta}
use gmos_k8s_operator.ApiUtil.{apply_update_to_resource, create_resource_if_not_exists}
use gmos_k8s_operator.Schemas.{glidein_set_creator, glidein_set_updater}
use gmos_k8s_operator.Template.{
  CollectorTemplate, collector, monitoring, Engine, create_from_template, apply_from_template,
  WalkEntry, read_manifests_from_fs,
}
use gmos_k8s_operator.Reconcile.{reconcile}

-- RNCollector.nameFor(pilotSet).NAMESPACE.svc.cluster.local
unfoldable pub local_collector_url : ObjectMeta → String
unfolding name_for
local_collector_url pilot_set =
    name_for rn_collector pilot_set <> ("." <> (pilot_set.namespace <> ".svc.cluster.local"))

module _ {k : K8s} where
  -- The spec that a GlideinSet gets: the collection's entry with the URLs filled in.
  unfoldable pub glidein_set_spec : GlideinSetCollection k → GlideinSetSpec k → GlideinSetSpec k
  unfolding local_collector_url
  glidein_set_spec pilot_set spec = record spec {
    glidein_manager_url = pilot_set.spec.glidein_manager_url;
    local_collector_url = local_collector_url pilot_set.meta;
  }

  -- The loop that looks for the name of an existing GlideinSet among the collection's entries.
  unfoldable pub is_current : String → String → List (GlideinSetSpec k) → Bool
  is_current owner name [] = false
  is_current owner name (spec ∷ specs) =
      if name == ((owner <> "-") <> spec.name) then true else is_current owner name specs

  unfoldable pub outdated : GlideinSetCollection k → GlideinSet k → Bool
  unfolding is_current
  outdated pilot_set glidein_set =
      not (is_current pilot_set.meta.name glidein_set.meta.name pilot_set.spec.glidein_sets)

  module _ (kube : Kube k) where
    unfoldable pub apply_glidein_set :
        GlideinSetCollection k → GlideinSetSpec k → Exec kube.Cluster (Unit {0})
    unfolding with_new attempt apply_update_to_resource create_resource_if_not_exists ◌>>=◌
        glidein_set_creator glidein_set_updater glidein_set_spec
    apply_glidein_set pilot_set spec = do
      e ← attempt (
          with_new kube.new_glidein_set (
            apply_update_to_resource kube.glidein_sets kube.is_not_found
              (record { resource = pilot_set.meta }) ("-" <> spec.name)
              (glidein_set_updater k (glidein_set_spec pilot_set spec))))
      elim e [
        | none ↦ pure tt
        | some e ↦
            if kube.is_not_found e
            then with_new kube.new_glidein_set (
                create_resource_if_not_exists kube.glidein_sets kube.is_not_found
                  (record { resource = pilot_set.meta }) ("-" <> spec.name)
                  (glidein_set_creator k (glidein_set_spec pilot_set spec)))
            else raise e
      ]

    unfoldable pub delete_if_outdated :
        GlideinSetCollection k → GlideinSet k → Exec kube.Cluster (Unit {0})
    unfolding with_new outdated pure
    delete_if_outdated pilot_set glidein_set =
        if outdated pilot_set glidein_set
        then with_new glidein_set kube.glidein_sets.delete
        else pure tt

    -- The list call's error is dropped.
    unfoldable pub existing_glidein_sets :
        GlideinSetCollection k → Exec kube.Cluster (List (GlideinSet k))
    unfolding with_new attempt ◌>>=◌
    existing_glidein_sets pilot_set = with_new [] (do
      attempt (
          kube.list_glidein_sets pilot_set.meta.namespace
            (("app.kubernetes.io/instance=" <> pilot_set.meta.name) ∷ []))
      gets (λ c. c.resource))

    unfoldable pub recoincile_glidein_sets : GlideinSetCollection k → Exec kube.Cluster (Unit {0})
    recoincile_glidein_sets pilot_set = do
      for_each pilot_set.spec.glidein_sets (apply_glidein_set pilot_set)
      existing ← existing_glidein_sets pilot_set
      for_each existing (delete_if_outdated pilot_set)

    unfoldable pub make_collector_template :
        GlideinSetCollection k → Exec kube.Cluster CollectorTemplate
    unfolding ◌>>=◌
    make_collector_template pilot_set = do
      bytes ← kube.read_random 256
      pure (record {
        name = pilot_set.meta.name;
        namespace = pilot_set.meta.namespace;
        namespace_token = bytes;
      })

    module _ (engine : Engine k kube.Object)
        (collector_manifests monitoring_manifests : List WalkEntry) where
      unfoldable pub create_collector_for_pilot_set :
          GlideinSetCollection k → Exec kube.Cluster (Unit {0})
      unfolding read_manifests_from_fs make_collector_template create_from_template for_each ◌>>=◌
      create_collector_for_pilot_set pilot_set = do
        yaml_templates ← lift (read_manifests_from_fs collector_manifests)
        template_data ← make_collector_template pilot_set
        for_each yaml_templates λ yaml.
            create_from_template engine kube.objects kube.is_not_found
              (record { resource = pilot_set.meta }) (collector template_data) yaml

      unfoldable pub create_monitoring_for_pilot_set :
          GlideinSetCollection k → Exec kube.Cluster (Unit {0})
      unfolding read_manifests_from_fs apply_from_template for_each ◌>>=◌
      create_monitoring_for_pilot_set pilot_set = do
        yaml_templates ← lift (read_manifests_from_fs monitoring_manifests)
        for_each yaml_templates λ yaml.
            apply_from_template engine kube.objects kube.is_not_found
              (record { resource = pilot_set.meta }) (monitoring pilot_set) yaml

      unfoldable pub create_resources_for_pilot_set :
          GlideinSetCollection k → Exec kube.Cluster (Unit {0})
      unfolding create_collector_for_pilot_set create_monitoring_for_pilot_set
          recoincile_glidein_sets ◌>>=◌
      create_resources_for_pilot_set pilot_set = do
        create_collector_for_pilot_set pilot_set
        create_monitoring_for_pilot_set pilot_set
        recoincile_glidein_sets pilot_set

      -- `finalizePilotSet` has an empty body.
      unfoldable pub finalize_pilot_set : GlideinSetCollection k → Exec kube.Cluster (Unit {0})
      finalize_pilot_set pilot_set = pure tt

      -- GlideinSetCollectionReconciler.Reconcile
      unfoldable pub reconcile_collection : NamespacedName → Exec kube.Cluster (Unit {0})
      unfolding reconcile finalize_pilot_set create_resources_for_pilot_set
      reconcile_collection req =
          reconcile kube.collections kube.is_not_found kube.finalizers (collection_meta k)
            kube.new_collection req finalize_pilot_set create_resources_for_pilot_set
