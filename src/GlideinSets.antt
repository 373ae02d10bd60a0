-- ===== src/GlideinSets.antt =====
-- internal/controller/glideinset_controller.go: the controller of GlideinSets. Its state is the
-- cluster, the watchers and the collector clients.
pub mod MissingClone
pub mod Deletion
pub mod Registration
pub mod Resources
pub mod Whole
pub mod Sound
pub mod Kept
pub mod Reachable
pub mod Home
use gmos_k8s_operator.Prelude.{String, Option, List}
use gmos_k8s_operator.Dict.{Dict}
use gmos_k8s_operator.Exec.{Exec, Cell, lift, modify, with_new, ◌>>=◌, ◌>>◌}
use gmos_k8s_operator.Types.{K8s, NamespacedName, Secret, GlideinSet}
use gmos_k8s_operator.ResourceName.{rn_tokens, rn_collector_tokens, namespaced_name_for}
use gmos_k8s_operator.Kube.{Api, Kube, glidein_set_meta}
use gmos_k8s_operator.ApiUtil.{PilotSetReconcileState, create_resource_if_not_exists}
use gmos_k8s_operator.Host.{Host}
use gmos_k8s_operator.Schemas.{empty_secret_creator}
use gmos_k8s_operator.Template.{deployment, data_secret, Engine, apply_from_template}
use gmos_k8s_operator.Manifest.{make_data_secret_template}
use gmos_k8s_operator.Reconcile.{reconcile}
use gmos_k8s_operator.Poller.Checks.{UpdateHandler}
use gmos_k8s_operator.Watchers.{
  Watchers, add_glidein_manager_watcher, remove_glidein_manager_watcher,
}
use gmos_k8s_operator.CollectorClient.{
  CollectorClients, CollectorUpdateHandler, add_collector_client, remove_collector_client,
}
use gmos_k8s_operator.Handlers.{update_handler, collector_update_handler}

pub record Operator (W : Type 0) : Type 0 where
  pub cluster : W
  pub watchers : Watchers (UpdateHandler W)
  pub collector_clients : CollectorClients (CollectorUpdateHandler W)

module _ {W A : Type 0} where
  unfoldable pub on_cluster : Exec W A → Exec (Operator W) A
  on_cluster m o = let (r, w) = m o.cluster in (r, record o { cluster = w })

  unfoldable pub on_watchers : Exec (Watchers (UpdateHandler W)) A → Exec (Operator W) A
  on_watchers m o = let (r, ws) = m o.watchers in (r, record o { watchers = ws })

module _ {W : Type 0} where
  unfoldable pub on_clients :
      Exec (CollectorClients (CollectorUpdateHandler W)) (Unit {0}) → Exec (Operator W) (Unit {0})
  on_clients m o =
      let (r, clients) = m o.collector_clients in (r, record o { collector_clients = clients })

module _ {W T : Type 0} where
  -- A client call where the cluster is a part of the operator's state.
  unfoldable pub in_operator : Exec (Cell T W) (Unit {0}) → Exec (Cell T (Operator W)) (Unit {0})
  in_operator m c =
      let (r, d) = m (record { resource = c.resource; world = c.world.cluster }) in
      (r, record { resource = d.resource; world = record c.world { cluster = d.world } })

  unfoldable pub operator_api : Api W T → Api (Operator W) T
  unfolding in_operator
  operator_api api = record {
    get = λ key. in_operator (api.get key);
    create = in_operator api.create;
    update = in_operator api.update;
    delete = in_operator api.delete;
    set_controller_reference = api.set_controller_reference;
    get_name = api.get_name;
    set_name = api.set_name;
    set_namespace = api.set_namespace;
  }

module _ {k : K8s} (kube : Kube k) (host : Host) (new_secret : Secret)
    (engine : Engine k kube.Object) (deployment_yaml data_secret_yaml : String) where
  abbrev pub state_of : GlideinSet k → PilotSetReconcileState
  state_of glidein_set = record { resource = glidein_set.meta }

  unfoldable pub create_resources_for_glidein_set : GlideinSet k → Exec kube.Cluster (Unit {0})
  unfolding with_new create_resource_if_not_exists empty_secret_creator ◌>>=◌
  create_resources_for_glidein_set glidein_set = do
    with_new new_secret (
        create_resource_if_not_exists kube.secrets kube.is_not_found (state_of glidein_set)
          rn_collector_tokens empty_secret_creator)
    with_new new_secret (
        create_resource_if_not_exists kube.secrets kube.is_not_found (state_of glidein_set)
          rn_tokens empty_secret_creator)

  unfoldable pub update_resources_for_glidein_set : GlideinSet k → Exec kube.Cluster (Unit {0})
  unfolding apply_from_template make_data_secret_template ◌>>=◌
  update_resources_for_glidein_set glidein_set = do
    apply_from_template engine kube.objects kube.is_not_found (state_of glidein_set)
        (deployment glidein_set) deployment_yaml
    template_data ← lift (make_data_secret_template host glidein_set)
    apply_from_template engine kube.objects kube.is_not_found (state_of glidein_set)
        (data_secret template_data) data_secret_yaml

  module _ (env : Option String) (order : List String) where
    unfoldable pub add_watchers : GlideinSet k → Exec (Operator kube.Cluster) (Unit {0})
    unfolding on_watchers on_clients add_glidein_manager_watcher add_collector_client
        namespaced_name_for ◌>>=◌
    add_watchers glidein_set = do
      on_watchers (
          add_glidein_manager_watcher env order glidein_set.spec.glidein_manager_url
            (namespaced_name_for glidein_set.meta)
            (update_handler kube host new_secret (state_of glidein_set)))
      on_clients (
          modify (
            add_collector_client glidein_set.meta
              (collector_update_handler kube host new_secret (state_of glidein_set))))

    unfoldable pub finalize_glidein_set : GlideinSet k → Exec (Operator kube.Cluster) (Unit {0})
    unfolding on_watchers on_clients remove_glidein_manager_watcher remove_collector_client
        namespaced_name_for ◌>>=◌
    finalize_glidein_set glidein_set = do
      on_watchers
          (modify (remove_glidein_manager_watcher order (namespaced_name_for glidein_set.meta)))
      on_clients (remove_collector_client glidein_set.meta)

    unfoldable pub work_on_glidein_set : GlideinSet k → Exec (Operator kube.Cluster) (Unit {0})
    unfolding on_cluster create_resources_for_glidein_set update_resources_for_glidein_set
        add_watchers ◌>>=◌
    work_on_glidein_set glidein_set = do
      on_cluster (create_resources_for_glidein_set glidein_set)
      on_cluster (update_resources_for_glidein_set glidein_set)
      add_watchers glidein_set

    -- GlideinSetReconciler.Reconcile
    unfoldable pub reconcile_glidein_set : NamespacedName → Exec (Operator kube.Cluster) (Unit {0})
    unfolding reconcile finalize_glidein_set work_on_glidein_set operator_api
    reconcile_glidein_set req =
        reconcile (operator_api kube.glidein_sets) kube.is_not_found kube.finalizers
          (glidein_set_meta k) kube.new_glidein_set req finalize_glidein_set work_on_glidein_set
