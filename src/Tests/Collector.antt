-- ===== src/Tests/Collector.antt =====
-- A collection whose collector is there, and for which a signing key is drawn anew.
use gmos_k8s_operator.Prelude.{◌≡◌, refl, [], ◌∷◌}
use gmos_k8s_operator.Exec.{ok}
use gmos_k8s_operator.Collection.{create_collector_for_pilot_set}
use gmos_k8s_operator.Collection.Collector.{create_collector_for_pilot_set-AllExist}
use gmos_k8s_operator.Tests.Objects.{object_meta, kind_of}
use gmos_k8s_operator.Tests.Templates.{filling}
use gmos_k8s_operator.Tests.Reconciled.{
  whole, object_stores, whole-IsQuietCluster, collector_manifests, monitoring_manifests,
  manifests_read, pilot_set, started, collector_there,
}

create_collector_for_pilot_set-AllExist_example :
    create_collector_for_pilot_set whole filling collector_manifests monitoring_manifests pilot_set
      started
    ≡ (ok tt, started)
create_collector_for_pilot_set-AllExist_example =
    create_collector_for_pilot_set-AllExist whole filling object_meta kind_of object_stores
      whole-IsQuietCluster.objects-IsQuiet collector_manifests monitoring_manifests pilot_set
      ("collector-deployment.yaml" ∷ "collector-service.yaml" ∷ []) [] started
      (manifests_read "collector-deployment.yaml" "collector-service.yaml") refl
      (collector_there [])
