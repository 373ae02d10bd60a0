-- ===== src/GlideinSets/Registration.antt =====
-- The end of a GlideinSet's reconciliation: its registration and its collector client.
use gmos_k8s_operator.Prelude.{
  String, ◌≡◌, refl, ap, ◌∙◌, some, true, List, eq_refl, not, ◌&&◌, ◌==◌, inl, inr, Bool-cases,
}
use gmos_k8s_operator.Dict
use gmos_k8s_operator.Exec.{Result, ok, Exec, ◌>>=◌, modify}
use gmos_k8s_operator.Types.{K8s, Secret, GlideinSet}
use gmos_k8s_operator.ResourceName.{namespaced_name_for}
use gmos_k8s_operator.Kube.{Kube}
use gmos_k8s_operator.Host.{Host}
use gmos_k8s_operator.Template.{Engine}
use gmos_k8s_operator.Poller.Checks.{UpdateHandler}
use gmos_k8s_operator.Watchers.{Watchers, add_watcher, add_glidein_manager_watcher}
use gmos_k8s_operator.Watchers.Registered.{IsKeyed, registered}
use gmos_k8s_operator.Watchers.Others.{registered-add_other}
use gmos_k8s_operator.Watchers.Guarantees.{registered_at_url, add_watcher_again}
use gmos_k8s_operator.CollectorClient.{add_collector_client}
use gmos_k8s_operator.CollectorClient.Clients.{added_client, lookup-add, add_collector_client_again}
use gmos_k8s_operator.Handlers.{update_handler, collector_update_handler}
use gmos_k8s_operator.GlideinSets.{
  Operator, on_cluster, on_watchers, on_clients, create_resources_for_glidein_set,
  update_resources_for_glidein_set, add_watchers, work_on_glidein_set,
}

module _ {k : K8s} (kube : Kube k) (host : Host) (new_secret : Secret)
    (engine : Engine k kube.Object) (deployment_yaml data_secret_yaml : String)
    (client_name : String) (order : List String) (g : GlideinSet k) where
  abbrev work : Exec (Operator kube.Cluster) (Unit {0})
  work =
      work_on_glidein_set kube host new_secret engine deployment_yaml data_secret_yaml
        (some client_name) order g

  abbrev handler : UpdateHandler kube.Cluster
  handler = update_handler kube host new_secret (record { resource = g.meta })

  -- The operator's state once a GlideinSet was registered.
  abbrev added : Operator kube.Cluster → Operator kube.Cluster
  added o = record o {
    watchers =
        add_watcher order client_name g.spec.glidein_manager_url (namespaced_name_for g.meta)
          handler o.watchers;
    collector_clients =
        add_collector_client g.meta
          (collector_update_handler kube host new_secret (record { resource = g.meta }))
          o.collector_clients;
  }

  add_watchers_lem :
      (o : Operator kube.Cluster)
      → add_watchers kube host new_secret engine deployment_yaml data_secret_yaml
          (some client_name)
          order
          g
          o
        ≡ (ok tt, added o)
  unfolding add_watchers on_watchers on_clients add_glidein_manager_watcher modify ◌>>=◌
  add_watchers_lem o = refl

  work_lem :
      (o : Operator kube.Cluster) (w w' : kube.Cluster)
      → create_resources_for_glidein_set kube host new_secret engine deployment_yaml
          data_secret_yaml g o.cluster
        ≡ (ok tt, w)
      → update_resources_for_glidein_set kube host new_secret engine deployment_yaml
          data_secret_yaml g w
        ≡ (ok tt, w')
      → work o ≡ (ok tt, added (record o { cluster = w' }))
  unfolding work_on_glidein_set on_cluster ◌>>=◌
  work_lem o w w' created written =
      rw (created, written) (add_watchers_lem (record o { cluster = w' }))

  others_registered :
      (ws : Watchers (UpdateHandler kube.Cluster)) (h : UpdateHandler kube.Cluster) (url r : String)
      → IsKeyed ws
      → (not (namespaced_name_for g.meta == r)
          && registered
              (add_watcher order client_name g.spec.glidein_manager_url
                (namespaced_name_for g.meta)
                h
                ws)
              url
              r)
        ≡ (not (namespaced_name_for g.meta == r) && registered ws url r)
  others_registered ws h url r K = elim (Bool-cases (namespaced_name_for g.meta == r)) [
    | inl same ↦ rw same refl
    | inr other ↦
        rw
          (
            other,
            registered-add_other order (namespaced_name_for g.meta) r other ws K client_name
                g.spec.glidein_manager_url h url,
          )
          refl
  ]

  -- Where the client's name is set and the map of pollers is keyed by URL: once a GlideinSet's
  -- resources are created and updated, its reconciliation ends without an error and writes no more.
  -- The GlideinSet is then registered with its manager's poller, and has a collector client with
  -- its metadata and a handler for it; no other registration changed.
  pub work_on_glidein_set-registered :
      (o : Operator kube.Cluster) (w w' : kube.Cluster)
      → IsKeyed o.watchers
      → create_resources_for_glidein_set kube host new_secret engine deployment_yaml
          data_secret_yaml g o.cluster
        ≡ (ok tt, w)
      → update_resources_for_glidein_set kube host new_secret engine deployment_yaml
          data_secret_yaml g w
        ≡ (ok tt, w')
      → ((work o).0 ≡ ok tt)
        × ((work o).1.cluster ≡ w')
        × (registered (work o).1.watchers g.spec.glidein_manager_url (namespaced_name_for g.meta)
            ≡ true)
        × (Dict.lookup (namespaced_name_for g.meta) (work o).1.collector_clients.active
            ≡ some (
                added_client g.meta
                  (collector_update_handler kube host new_secret (record { resource = g.meta }))
                  (Dict.lookup (namespaced_name_for g.meta) o.collector_clients.active)))
        × ((url r : String)
            → (not (namespaced_name_for g.meta == r) && registered (work o).1.watchers url r)
              ≡ (not (namespaced_name_for g.meta == r) && registered o.watchers url r))
  work_on_glidein_set-registered o w w' K created written =
      let ran = work_lem o w w' created written in
      (
        ap (λ (r : Result (Unit {0}) × Operator kube.Cluster). r.0) ran,
        ap (λ (r : Result (Unit {0}) × Operator kube.Cluster). r.1.cluster) ran,
        rw ran (
            registered_at_url order client_name g.spec.glidein_manager_url
              (namespaced_name_for g.meta) handler o.watchers K),
        rw (ran, lookup-add, eq_refl (namespaced_name_for g.meta)),
        λ url r. rw ran (others_registered o.watchers handler url r K),
      )

  -- Where the map of pollers is keyed by URL: to register a GlideinSet a second time, under whatever
  -- client's name and in whatever order of the visits, ends as the first time did, and leaves every
  -- poller, every handler and every collector client exactly as the first time left them.
  pub add_watchers_again :
      (again : String) (order' : List String) (o : Operator kube.Cluster)
      → IsKeyed o.watchers
      → add_watchers kube host new_secret engine deployment_yaml data_secret_yaml
          (some again)
          order'
          g
          (add_watchers kube host new_secret engine deployment_yaml data_secret_yaml
            (some client_name)
            order
            g
            o).1
        ≡ add_watchers kube host new_secret engine deployment_yaml data_secret_yaml
            (some client_name)
            order
            g
            o
  unfolding add_watchers on_watchers on_clients add_glidein_manager_watcher modify ◌>>=◌
  add_watchers_again again order' o K =
      ap
        (λ ws. (
          ok tt,
          record (added o) {
            watchers = ws;
            collector_clients =
                add_collector_client g.meta
                  (collector_update_handler kube host new_secret (record { resource = g.meta }))
                  (added o).collector_clients;
          },
        ))
        (add_watcher_again order client_name g.spec.glidein_manager_url (namespaced_name_for g.meta)
          handler o.watchers K order' again handler)
      ∙ ap (λ clients. (ok tt, record (added o) { collector_clients = clients }))
          (add_collector_client_again g.meta
            (collector_update_handler kube host new_secret (record { resource = g.meta }))
            o.collector_clients)
