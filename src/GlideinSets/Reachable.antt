-- ===== src/GlideinSets/Reachable.antt =====
-- The GlideinSet controller over a whole run: what holds of the watchers and the collector clients in
-- every state that it reaches, whatever the cluster answers and whoever else changes it.
use gmos_k8s_operator.Prelude.{String, ◌≡◌, Option, none, some, List}
use gmos_k8s_operator.Dict
use gmos_k8s_operator.Exec.{ok, modify, ◌>>=◌}
use gmos_k8s_operator.Keeps.{Keeps}
use gmos_k8s_operator.Types.{K8s, ObjectMeta, NamespacedName, Secret, GlideinSet}
use gmos_k8s_operator.Kube.{Kube}
use gmos_k8s_operator.Host.{Host}
use gmos_k8s_operator.Template.{Engine}
use gmos_k8s_operator.GlideinSets.Kept.{reconcile_glidein_set-Keeps}
use gmos_k8s_operator.Poller.{Loops, GlideinManagerPoller}
use gmos_k8s_operator.Poller.Checks.{UpdateHandler}
use gmos_k8s_operator.Watchers.Moved.{moved}
use gmos_k8s_operator.Watchers.{add_glidein_manager_watcher}
use gmos_k8s_operator.Watchers.Guarantees.{no_watchers}
use gmos_k8s_operator.CollectorClient.{
  CollectorClient, CollectorUpdateHandler, TokenLoop, TokenLoopStep, remove_collector_client,
}
use gmos_k8s_operator.CollectorClient.Running.{no_clients, remove-ok, Polls-TokenLoopStep}
use gmos_k8s_operator.GlideinSets.{
  Operator, on_watchers, on_clients, add_watchers, finalize_glidein_set, reconcile_glidein_set,
}
use gmos_k8s_operator.GlideinSets.Sound.{
  IsSound, IsSound-remove, IsSound-add, IsSound-moved, IsSound-detached, start-IsSound,
}

module _ {k : K8s} (kube : Kube k) (host : Host) (new_secret : Secret)
    (engine : Engine k kube.Object) (deployment_yaml data_secret_yaml : String)
    (env : Option String) where
  abbrev pub Sound : Operator kube.Cluster → Type 0
  Sound o = IsSound o.watchers o.collector_clients

  module _ (order : List String) where
    add_watchers-Keeps :
        (g : GlideinSet k)
        → Keeps Sound
            (add_watchers kube host new_secret engine deployment_yaml data_secret_yaml env order g)
    unfolding add_watchers on_watchers on_clients add_glidein_manager_watcher modify ◌>>=◌
    add_watchers-Keeps g o I = by_env env
      where
        by_env :
            (name : Option String)
            → Sound
                (add_watchers kube host new_secret engine deployment_yaml data_secret_yaml name
                  order g o).1
        by_env none = I
        by_env (some client_name) =
            IsSound-add order g.meta o.watchers o.collector_clients I client_name
              g.spec.glidein_manager_url _ _

    finalize-Keeps :
        (g : GlideinSet k)
        → Keeps Sound (
            finalize_glidein_set kube host new_secret engine deployment_yaml data_secret_yaml env
              order g)
    unfolding finalize_glidein_set on_watchers on_clients modify ◌>>=◌
    finalize-Keeps g o I = IsSound-remove order g.meta o.watchers o.collector_clients I

    reconciled-Sound :
        (req : NamespacedName)
        → Keeps Sound (
            reconcile_glidein_set kube host new_secret engine deployment_yaml data_secret_yaml env
              order req)
    reconciled-Sound =
        reconcile_glidein_set-Keeps kube host new_secret engine deployment_yaml data_secret_yaml env
          order Sound (λ o w i. i) (λ g. Unit)
          (record {
            get_lem = λ n c e. tt;
            add_finalizer_lem = λ g p. tt;
            update_lem = λ c p e. tt;
          })
          (λ g p. add_watchers-Keeps g) finalize-Keeps

  -- What happens to the operator: a request is reconciled, with some order of the visits; the cluster
  -- changes, by a poller, a collector client or somebody else; a poller's goroutines, or the one that
  -- starts it, do anything to its loops; or the goroutine of a client in the map ends.
  pub data OperatorStep : Operator kube.Cluster → Operator kube.Cluster → Type 0 where
    reconciled :
        (order : List String) (req : NamespacedName) (o : Operator kube.Cluster)
        → OperatorStep o
            (reconcile_glidein_set kube host new_secret engine deployment_yaml data_secret_yaml env
              order req o).1
    cluster_changed :
        (w : kube.Cluster) (o : Operator kube.Cluster) → OperatorStep o (record o { cluster = w })
    poller_moved :
        (url : String) (poller : GlideinManagerPoller (UpdateHandler kube.Cluster)) (loops : Loops)
        (detached : List (GlideinManagerPoller (UpdateHandler kube.Cluster)))
        (o : Operator kube.Cluster) (found : Dict.lookup url o.watchers.active ≡ some poller)
        → OperatorStep o (record o { watchers = moved o.watchers url poller found loops detached })
    detached_moved :
        (detached : List (GlideinManagerPoller (UpdateHandler kube.Cluster)))
        (o : Operator kube.Cluster)
        → OperatorStep o (record o { watchers = record o.watchers { detached = detached } })
    client_ended :
        (n : String) (client : CollectorClient (CollectorUpdateHandler kube.Cluster))
        (loop : TokenLoop) (o : Operator kube.Cluster)
        → Dict.lookup n o.collector_clients.active ≡ some client
        → TokenLoopStep client.loop loop
        → OperatorStep o (record o {
          collector_clients = record o.collector_clients {
            active = Dict.insert n (record client { loop = loop }) o.collector_clients.active;
          };
        })

  pub data Reached (w : kube.Cluster) : Operator kube.Cluster → Type 0 where
    started :
        Reached w (record { cluster = w; watchers = no_watchers; collector_clients = no_clients })
    next : {o p : Operator kube.Cluster} → Reached w o → OperatorStep o p → Reached w p

  pub Reached-Sound : {w : kube.Cluster} {o : Operator kube.Cluster} → Reached w o → Sound o
  Reached-Sound started = start-IsSound
  Reached-Sound (next before (reconciled order req o)) =
      reconciled-Sound order req o (Reached-Sound before)
  Reached-Sound (next before (cluster_changed w o)) = Reached-Sound before
  Reached-Sound (next before (poller_moved url poller loops detached o found)) =
      IsSound-moved o.watchers o.collector_clients (Reached-Sound before) url poller found loops
        detached
  Reached-Sound (next before (detached_moved detached o)) =
      IsSound-detached o.watchers o.collector_clients (Reached-Sound before) detached
  Reached-Sound (next before (client_ended n client loop o held step)) =
      absurd (
        Polls-TokenLoopStep client loop ((Reached-Sound before).polled.all_poll n client held) step)

  -- In every state that the operator reaches from its start, whatever the cluster answers and whoever
  -- else changes it, however reconciliations end, and whatever the goroutines of the pollers and the
  -- collector clients do in between: every poller is filed under its manager's URL and has a handler;
  -- every collector client in the map polls, and of every one that was taken out the ticker is
  -- stopped, the goroutine has ended and no send waits; every GlideinSet with a collector client is
  -- registered with a manager; and to remove the client of any GlideinSet returns.
  pub Reached-IsSound :
      {w : kube.Cluster} {o : Operator kube.Cluster}
      → Reached w o
      → IsSound o.watchers o.collector_clients
        × ((m : ObjectMeta) → (remove_collector_client m o.collector_clients).0 ≡ ok tt)
  Reached-IsSound {o = o} reached =
      let S = Reached-Sound reached in (S, λ m. remove-ok m o.collector_clients S.polled)
