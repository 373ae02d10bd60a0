-- ===== src/Collection/Monitoring.antt =====
-- createMonitoringForPilotSet in a quiet cluster.
use gmos_k8s_operator.Prelude.{String, ◌≡◌, List}
use gmos_k8s_operator.Exec.{ok, lift, ◌>>=◌}
use gmos_k8s_operator.Types.{K8s, NamespacedName, GlideinSetCollection}
use gmos_k8s_operator.Kube.{HasMeta, Kube}
use gmos_k8s_operator.Kube.Quiet.{Store, IsMetaApi}
use gmos_k8s_operator.Kube.Kinds.{IsQuietKinds}
use gmos_k8s_operator.Template.{monitoring, Engine, WalkEntry, read_manifests_from_fs}
use gmos_k8s_operator.Template.Upserts.{
  Rendered, AllRender, made_of, for_each-apply_from_template, for_each-apply_from_template-kept,
}
use gmos_k8s_operator.Collection.{create_monitoring_for_pilot_set}

module _ {k : K8s} (kube : Kube k) (engine : Engine k kube.Object) (hm : HasMeta kube.Object)
    (kind_of : kube.Object → String) (stores : String → Store kube.Cluster kube.Object)
    (M : IsMetaApi hm kube.objects)
    (Q : IsQuietKinds hm kube.is_not_found kube.objects kind_of stores)
    (collector_manifests monitoring_manifests : List WalkEntry)
    (pilot_set : GlideinSetCollection k) where
  -- In a quiet cluster, where every monitoring template can be read, rendered and decoded: to create
  -- the monitoring ends without an error. Under each kind and key there is then what the templates of that
  -- kind and key, one after the other, made of the object that was there, or of none, as the server stores
  -- it; an object that no template names is as it was.
  pub create_monitoring_for_pilot_set-upserts :
      (templates : List String) (rs : List (Rendered kube.Object)) (w : kube.Cluster)
      → read_manifests_from_fs monitoring_manifests ≡ ok templates
      → AllRender engine hm kube.objects kube.is_not_found kind_of stores M Q
          (record { resource = pilot_set.meta })
          (monitoring pilot_set)
          templates
          rs
      → ((create_monitoring_for_pilot_set kube engine collector_manifests monitoring_manifests
            pilot_set w).0
          ≡ ok tt)
        × ((kind : String) (n : NamespacedName)
            → (stores kind).find
                (create_monitoring_for_pilot_set kube engine collector_manifests
                  monitoring_manifests pilot_set w).1
                n
              ≡ made_of engine hm kube.objects kube.is_not_found kind_of stores M Q
                  (record { resource = pilot_set.meta })
                  rs
                  kind
                  n
                  ((stores kind).find w n))
  unfolding create_monitoring_for_pilot_set lift ◌>>=◌
  create_monitoring_for_pilot_set-upserts templates rs w listed all = rw listed (
      for_each-apply_from_template engine hm kube.objects kube.is_not_found kind_of stores M Q
        (record { resource = pilot_set.meta }) (monitoring pilot_set) templates rs all w)

  -- What a write of an object keeps, creating the monitoring keeps.
  pub create_monitoring_for_pilot_set-kept :
      (I : kube.Cluster → Type 0)
      → ((w : kube.Cluster) (kind : String) (obj : kube.Object) → I w → I ((stores kind).put w obj))
      → (templates : List String) (rs : List (Rendered kube.Object)) (w : kube.Cluster)
      → read_manifests_from_fs monitoring_manifests ≡ ok templates
      → AllRender engine hm kube.objects kube.is_not_found kind_of stores M Q
          (record { resource = pilot_set.meta })
          (monitoring pilot_set)
          templates
          rs
      → I w
      → I
          (create_monitoring_for_pilot_set kube engine collector_manifests monitoring_manifests
            pilot_set w).1
  unfolding create_monitoring_for_pilot_set lift ◌>>=◌
  create_monitoring_for_pilot_set-kept I put templates rs w listed all i = rw listed (
      for_each-apply_from_template-kept engine hm kube.objects kube.is_not_found kind_of stores M Q
        (record { resource = pilot_set.meta }) I put (monitoring pilot_set) templates rs all w i)
