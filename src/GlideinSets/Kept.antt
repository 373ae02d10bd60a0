-- ===== src/GlideinSets/Kept.antt =====
-- What a reconciliation of the GlideinSet controller keeps, whatever the cluster answers.
use gmos_k8s_operator.Prelude.{String, ◌≡◌, Option, List}
use gmos_k8s_operator.Exec.{Exec, Cell, ok, ◌>>=◌}
use gmos_k8s_operator.Keeps.{Keeps, OfWorld, bind-Keeps}
use gmos_k8s_operator.Types.{K8s, NamespacedName, Secret, GlideinSet}
use gmos_k8s_operator.Kube.{Kube, glidein_set_meta}
use gmos_k8s_operator.Host.{Host}
use gmos_k8s_operator.Template.{Engine}
use gmos_k8s_operator.Reconcile.{pilot_set_finalizer, change_meta}
use gmos_k8s_operator.Reconcile.Kept.{reconcile-Keeps}
use gmos_k8s_operator.GlideinSets.{
  Operator, in_operator, operator_api, on_cluster, create_resources_for_glidein_set,
  update_resources_for_glidein_set, add_watchers, finalize_glidein_set, work_on_glidein_set,
  reconcile_glidein_set,
}

-- A predicate that the cluster has no part in.
module _ {W : Type 0} (I : Operator W → Type 0)
    (same : (o : Operator W) (w : W) → I o → I (record o { cluster = w })) where
  in_operator-Keeps :
      {T : Type 0} (m : Exec (Cell T W) (Unit {0})) → Keeps (OfWorld {T = T} I) (in_operator m)
  unfolding in_operator
  in_operator-Keeps m c i = same c.world _ i

  on_cluster-Keeps : (m : Exec W (Unit {0})) → Keeps I (on_cluster m)
  unfolding on_cluster
  on_cluster-Keeps m o i = same o _ i

module _ {k : K8s} (kube : Kube k) where
  -- What holds of the GlideinSets that the cluster has and stores, and of one with its finalizer
  -- added.
  pub record IsServed (P : GlideinSet k → Type 0) : Type 0 where
    pub get_lem :
        (n : NamespacedName) (c : Cell (GlideinSet k) kube.Cluster)
        → (kube.glidein_sets.get n c).0 ≡ ok tt
        → P (kube.glidein_sets.get n c).1.resource
    pub add_finalizer_lem :
        (g : GlideinSet k)
        → P g
        → P (record g { meta = kube.finalizers.add_finalizer pilot_set_finalizer g.meta })
    pub update_lem :
        (c : Cell (GlideinSet k) kube.Cluster)
        → P c.resource
        → (kube.glidein_sets.update c).0 ≡ ok tt
        → P (kube.glidein_sets.update c).1.resource

  module _ (host : Host) (new_secret : Secret) (engine : Engine k kube.Object)
      (deployment_yaml data_secret_yaml : String) (env : Option String) (order : List String)
      (I : Operator kube.Cluster → Type 0)
      (same : (o : Operator kube.Cluster) (w : kube.Cluster) → I o → I (record o { cluster = w }))
      (P : GlideinSet k → Type 0) (served : IsServed P)
      (add-Keeps : (g : GlideinSet k)
        → P g
        → Keeps I
            (add_watchers kube host new_secret engine deployment_yaml data_secret_yaml env order g))
      (finalize-Keeps : (g : GlideinSet k)
        → Keeps I (
            finalize_glidein_set kube host new_secret engine deployment_yaml data_secret_yaml env
              order g)) where
    work-Keeps :
        (g : GlideinSet k)
        → P g
        → Keeps I (
            work_on_glidein_set kube host new_secret engine deployment_yaml data_secret_yaml env
              order g)
    unfolding work_on_glidein_set
    work-Keeps g p =
        let create =
          create_resources_for_glidein_set kube host new_secret engine deployment_yaml
            data_secret_yaml g in
        let write =
          update_resources_for_glidein_set kube host new_secret engine deployment_yaml
            data_secret_yaml g in
        let add =
          add_watchers kube host new_secret engine deployment_yaml data_secret_yaml env order g in
        bind-Keeps I (on_cluster create) (λ _. on_cluster write >>= λ _. add)
          (on_cluster-Keeps I same create)
          λ _.
            bind-Keeps I (on_cluster write) (λ _. add) (on_cluster-Keeps I same write)
              λ _. add-Keeps g p

    pub reconcile_glidein_set-Keeps :
        (req : NamespacedName)
        → Keeps I (
            reconcile_glidein_set kube host new_secret engine deployment_yaml data_secret_yaml env
              order req)
    unfolding reconcile_glidein_set operator_api in_operator change_meta
    reconcile_glidein_set-Keeps req =
        reconcile-Keeps (operator_api kube.glidein_sets) kube.is_not_found kube.finalizers
          (glidein_set_meta k) kube.new_glidein_set I
          (λ n. in_operator-Keeps I same (kube.glidein_sets.get n))
          (in_operator-Keeps I same kube.glidein_sets.update) req
          (finalize_glidein_set kube host new_secret engine deployment_yaml data_secret_yaml env
            order)
          (work_on_glidein_set kube host new_secret engine deployment_yaml data_secret_yaml env
            order)
          finalize-Keeps P (λ n c e. served.get_lem n _ e) served.add_finalizer_lem
          (λ c p e. served.update_lem _ p e) work-Keeps
