-- ===== src/GlideinSets/Deletion.antt =====
-- The deletion of a GlideinSet, over the cluster, the watchers and the collector clients together.
use gmos_k8s_operator.Prelude.{
  String, ◌≡◌, refl, ap, Option, none, some, Bool, true, not, ◌&&◌, List, ◌==◌, if◌then◌else◌,
}
use gmos_k8s_operator.Dict
use gmos_k8s_operator.Exec.{Error, Result, ok, modify, ◌>>=◌}
use gmos_k8s_operator.Types.{K8s, NamespacedName, Secret, GlideinSet}
use gmos_k8s_operator.ResourceName.{namespaced_name_for}
use gmos_k8s_operator.Kube.{Api, HasMeta, Kube, glidein_set_meta}
use gmos_k8s_operator.Kube.Quiet.{Store, IsMetaApi, IsQuiet, no_items}
use gmos_k8s_operator.Host.{Host}
use gmos_k8s_operator.Template.{Engine}
use gmos_k8s_operator.Reconcile.{pilot_set_finalizer}
use gmos_k8s_operator.Reconcile.Finalizer.{listed, without, IsFinalizerApi, reconcile-deleted}
use gmos_k8s_operator.Watchers.{remove_glidein_manager_watcher}
use gmos_k8s_operator.Watchers.Registered.{IsKeyed, registered}
use gmos_k8s_operator.Watchers.Removal.{AtMostOne, Reaches, registered-remove}
use gmos_k8s_operator.CollectorClient.{remove_collector_client}
use gmos_k8s_operator.CollectorClient.Clients.{HasGoroutine, remove_lem, lookup-remove}
use gmos_k8s_operator.GlideinSets.{
  Operator, in_operator, operator_api, on_watchers, on_clients, finalize_glidein_set,
  work_on_glidein_set, reconcile_glidein_set,
}

-- A quiet cluster is one, seen as a part of the operator's state.
module _ {W T : Type 0} (hm : HasMeta T) (api : Api W T) (store : Store W T) where
  abbrev pub operator_store : Store (Operator W) T
  operator_store = record {
    find = λ o n. store.find o.cluster n;
    put = λ o t. record o { cluster = store.put o.cluster t };
    drop = λ o n. record o { cluster = store.drop o.cluster n };
    stored = store.stored;
    doomed = store.doomed;
    absent = store.absent;
  }

  pub operator-IsMetaApi : IsMetaApi hm api → IsMetaApi hm (operator_api api)
  unfolding operator_api
  operator-IsMetaApi M = record {
    meta-set_meta = M.meta-set_meta;
    get_name_lem = M.get_name_lem;
    set_name_lem = M.set_name_lem;
    set_namespace_lem = M.set_namespace_lem;
    set_controller_reference_lem = M.set_controller_reference_lem;
  }

  pub operator-IsQuiet :
      {is_not_found : Error → Bool}
      → IsQuiet hm is_not_found api store
      → IsQuiet hm is_not_found (operator_api api) operator_store
  unfolding operator_api in_operator
  operator-IsQuiet Q = record {
    is_not_found-absent = Q.is_not_found-absent;
    get-some = λ n r o t found. rw (Q.get-some n r o.cluster t found);
    get-none = λ n r o missing. rw (Q.get-none n r o.cluster missing);
    key-find = λ n o t found. Q.key-find n o.cluster t found;
    create-none = λ t o missing. rw (Q.create-none t o.cluster missing);
    update-some = λ t o old found. rw (Q.update-some t o.cluster old found);
    delete-some = λ t o old found. rw (Q.delete-some t o.cluster old found);
    meta-stored = Q.meta-stored;
    find-put = λ o t n. Q.find-put o.cluster t n;
    is_dead-find = λ n o t found. Q.is_dead-find n o.cluster t found;
    find-drop = λ o m n. Q.find-drop o.cluster m n;
  }

module _ {k : K8s} (kube : Kube k) (host : Host) (new_secret : Secret)
    (engine : Engine k kube.Object) (deployment_yaml data_secret_yaml : String)
    (env : Option String) (order : List String) where
  -- The operator's state once a GlideinSet was finalized.
  abbrev pub finalized : GlideinSet k → Operator kube.Cluster → Operator kube.Cluster
  finalized g o = record o {
    watchers = remove_glidein_manager_watcher order (namespaced_name_for g.meta) o.watchers;
    collector_clients = (remove_collector_client g.meta o.collector_clients).1;
  }

  finalize_lem :
      (g : GlideinSet k) (o : Operator kube.Cluster)
      → HasGoroutine o.collector_clients g.meta
      → finalize_glidein_set kube host new_secret engine deployment_yaml data_secret_yaml env order
          g o
        ≡ (ok tt, finalized g o)
  unfolding finalize_glidein_set on_watchers on_clients modify ◌>>=◌
  finalize_lem g o h = rw (remove_lem o.collector_clients g.meta h) refl

  module _ (store : Store kube.Cluster (GlideinSet k))
      (M : IsMetaApi (glidein_set_meta k) kube.glidein_sets)
      (Q : IsQuiet (glidein_set_meta k) kube.is_not_found kube.glidein_sets store)
      (stored_lem : (g : GlideinSet k) → store.stored g ≡ g)
      (F : IsFinalizerApi kube.finalizers) where
    abbrev run_reconcile :
        NamespacedName → Operator kube.Cluster → Result (Unit {0}) × Operator kube.Cluster
    run_reconcile =
        reconcile_glidein_set kube host new_secret engine deployment_yaml data_secret_yaml env order

    -- In a quiet cluster, which stores objects as it is sent them: to reconcile a GlideinSet that is
    -- marked for deletion and has the finalizer returns without an error, if the goroutine of its
    -- collector client runs, where it has one. The GlideinSet loses the
    -- finalizer, and is gone if that was its last one. If it was at one manager at most, which the
    -- visits reach, it is then at none; it has no collector client; and no other registration and no
    -- other client changes.
    pub reconcile_glidein_set-deleted :
        (req : NamespacedName) (o : Operator kube.Cluster) (g : GlideinSet k) (at : _)
        → store.find o.cluster req ≡ some g
        → g.meta.deletion_timestamp ≡ some at
        → listed pilot_set_finalizer g.meta.finalizers ≡ true
        → IsKeyed o.watchers
        → AtMostOne o.watchers (namespaced_name_for g.meta)
        → Reaches order o.watchers (namespaced_name_for g.meta)
        → HasGoroutine o.collector_clients g.meta
        → ((run_reconcile req o).0 ≡ ok tt)
          × (store.find (run_reconcile req o).1.cluster req ≡ (
              if no_items (without pilot_set_finalizer g.meta.finalizers)
              then none
              else some (record g {
                meta = record g.meta { finalizers = without pilot_set_finalizer g.meta.finalizers };
              })))
          × ((url resource : String)
              → registered (run_reconcile req o).1.watchers url resource ≡ (
                  registered o.watchers url resource
                  && not (namespaced_name_for g.meta == resource)))
          × ((n : String)
              → Dict.lookup n (run_reconcile req o).1.collector_clients.active ≡ (
                  if namespaced_name_for g.meta == n
                  then none
                  else Dict.lookup n o.collector_clients.active))
    unfolding reconcile_glidein_set
    reconcile_glidein_set-deleted req o g at found marked has K one reach goroutine =
        let (ran, left) =
          reconcile-deleted (glidein_set_meta k) kube.is_not_found (operator_api kube.glidein_sets)
            (operator_store (glidein_set_meta k) kube.glidein_sets store)
            (operator-IsQuiet (glidein_set_meta k) kube.glidein_sets store Q)
            (operator-IsMetaApi (glidein_set_meta k) kube.glidein_sets store M) stored_lem
            kube.finalizers F kube.new_glidein_set req
            (finalize_glidein_set kube host new_secret engine deployment_yaml data_secret_yaml env
              order)
            (work_on_glidein_set kube host new_secret engine deployment_yaml data_secret_yaml env
              order)
            o g found at (finalized g o) marked has (finalize_lem g o goroutine) found in
        (
          ap (λ (r : Result (Unit {0}) × Operator kube.Cluster). r.0) ran,
          rw ran left,
          λ url resource. rw ran (
              registered-remove order (namespaced_name_for g.meta) o.watchers K reach one url
                resource),
          λ n. rw ran (lookup-remove o.collector_clients g.meta n goroutine),
        )
