-- ===== src/Tests/Deleting.antt =====
-- A GlideinSet that the controller registers, and one that it lets go of.
use gmos_k8s_operator.Prelude.{
  ◌≡◌, refl, String, none, some, ◌&&◌, not, [], ◌∷◌, arith, ◌==◌, eq_iff, if◌then◌else◌,
}
use gmos_k8s_operator.Dict
use gmos_k8s_operator.Exec.{ok}
use gmos_k8s_operator.Types.{ObjectMeta, GlideinSet}
use gmos_k8s_operator.ResourceName.{namespaced_name_for}
use gmos_k8s_operator.Reconcile.{pilot_set_finalizer}
use gmos_k8s_operator.Poller.{no_loops, has_update_handler_for_resource}
use gmos_k8s_operator.Poller.Checks.{UpdateHandler}
use gmos_k8s_operator.Handlers.{update_handler, collector_update_handler}
use gmos_k8s_operator.CollectorClient.{
  CollectorClients, CollectorUpdateHandler, start_client, new_collector_client,
  remove_collector_client,
}
use gmos_k8s_operator.CollectorClient.Clients.{added_client, HasGoroutine}
use gmos_k8s_operator.Watchers.{Watchers}
use gmos_k8s_operator.Watchers.Registered.{IsKeyed, registered}
use gmos_k8s_operator.Watchers.Removal.{AtMostOne, Reaches}
use gmos_k8s_operator.GlideinSets.{Operator, reconcile_glidein_set}
use gmos_k8s_operator.GlideinSets.Sound.{IsSound}
use gmos_k8s_operator.GlideinSets.Reachable.{
  Reached, started, next, reconciled, cluster_changed, Reached-IsSound,
}
use gmos_k8s_operator.GlideinSets.Deletion.{reconcile_glidein_set-deleted}
use gmos_k8s_operator.Tests.Memory.{Memory, memory_store, memory-IsMetaApi, memory-IsQuiet}
use gmos_k8s_operator.Tests.Cluster.{
  plain, sets, kube, before, old_key, osg, glidein_set, finalizer_api-IsFinalizerApi,
}
use gmos_k8s_operator.Tests.Controllers.{host, no_secret, engine, operator, pilots_state}

-- Marked for deletion, with the operator's finalizer.
abbrev doomed_set : GlideinSet plain
doomed_set =
    glidein_set
      (record (osg "pilots-old") {
        finalizers = pilot_set_finalizer ∷ [];
        deletion_timestamp = some 1700000000;
      })
      "old"

abbrev doomed_cluster : Memory sets
doomed_cluster n = (memory_store sets).put (λ m. none) doomed_set n

abbrev client_handler : CollectorUpdateHandler (Memory sets)
client_handler = collector_update_handler kube host no_secret pilots_state

some_inj : {A : Type 0} {a b : A} → some a ≡ some b → a ≡ b
some_inj h = cc

abbrev handler : UpdateHandler (Memory sets)
handler = update_handler kube host no_secret pilots_state

-- It is polled for at the manager "a".
abbrev watching : Watchers (UpdateHandler (Memory sets))
watching = record {
  active =
      (
        "a",
        record {
          update_handlers = ("osg/pilots-old", handler) ∷ [];
          host_name = "k8s";
          manager_url = "a";
          work_dir = "/tmp";
          loops = no_loops;
        },
      )
      ∷ [];
  detached = [];
}

-- It has a collector client, and another GlideinSet too.
abbrev doomed_clients : CollectorClients (CollectorUpdateHandler (Memory sets))
doomed_clients = record {
  active =
      ("osg/pilots-old", added_client doomed_set.meta client_handler none)
      ∷ ("osg/others", added_client (osg "others") client_handler none)
      ∷ [];
  removed = [];
}

abbrev doomed_operator : Operator (Memory sets)
doomed_operator = record operator {
  cluster = doomed_cluster;
  watchers = watching;
  collector_clients = doomed_clients;
}

watching-IsKeyed : IsKeyed watching
unfolding Dict.lookup Dict.is_empty
watching-IsKeyed = record {
  url_lem = λ url p h. ground (arith, eq_iff "a" url);
  used = λ url p h. ground (arith, eq_iff "a" url);
}

watching-registered :
    (u : String) → registered watching u (namespaced_name_for doomed_set.meta) ≡ ("a" == u)
unfolding registered Dict.lookup has_update_handler_for_resource Dict.has_key namespaced_name_for
watching-registered u = ground (arith, eq_iff "a" u)

watching-AtMostOne : AtMostOne watching (namespaced_name_for doomed_set.meta)
watching-AtMostOne u v hu hv =
    ground (arith, watching-registered u, watching-registered v, eq_iff "a" u, eq_iff "a" v)

watching-Reaches : Reaches ("a" ∷ []) watching (namespaced_name_for doomed_set.meta)
watching-Reaches u hu = ground (arith, watching-registered u)

doomed-HasGoroutine : HasGoroutine doomed_operator.collector_clients doomed_set.meta
unfolding Dict.lookup namespaced_name_for
doomed-HasGoroutine client held =
    rw (← some_inj held) (unfold start_client new_collector_client in refl)

doomed_found : (memory_store sets).find doomed_cluster old_key ≡ some doomed_set
doomed_found = refl

abbrev after_reconcile : Operator (Memory sets)
after_reconcile =
    (reconcile_glidein_set kube host no_secret engine "kind: Deployment" "kind: Secret" (some "k8s")
      ("a" ∷ []) old_key doomed_operator).1

reconcile_glidein_set-deleted_example :
    ((reconcile_glidein_set kube host no_secret engine "kind: Deployment" "kind: Secret"
        (some "k8s")
        ("a" ∷ [])
        old_key
        doomed_operator).0
      ≡ ok tt)
    × ((memory_store sets).find after_reconcile.cluster old_key ≡ none)
    × ((url resource : String)
        → registered after_reconcile.watchers url resource ≡ (
            registered watching url resource
            && not (namespaced_name_for doomed_set.meta == resource)))
    × ((n : String)
        → Dict.lookup n after_reconcile.collector_clients.active ≡ (
            if namespaced_name_for doomed_set.meta == n
            then none
            else Dict.lookup n doomed_clients.active))
reconcile_glidein_set-deleted_example =
    reconcile_glidein_set-deleted kube host no_secret engine "kind: Deployment" "kind: Secret"
      (some "k8s") ("a" ∷ []) (memory_store sets) (memory-IsMetaApi sets λ m g. refl)
      (memory-IsQuiet sets) (λ g. refl) finalizer_api-IsFinalizerApi old_key doomed_operator
      doomed_set 1700000000 doomed_found refl refl watching-IsKeyed watching-AtMostOne
      watching-Reaches doomed-HasGoroutine

-- The operator after its start, a change of the cluster and one request.
abbrev once_reconciled : Operator (Memory sets)
once_reconciled =
    (reconcile_glidein_set kube host no_secret engine "kind: Deployment" "kind: Secret" (some "k8s")
      [] old_key operator).1

once-Reached :
    Reached kube host no_secret engine "kind: Deployment" "kind: Secret"
      (some "k8s")
      (λ n. none)
      once_reconciled
once-Reached = next (next started (cluster_changed before _)) (reconciled [] old_key operator)

Reached-IsSound_example :
    IsSound once_reconciled.watchers once_reconciled.collector_clients
    × ((m : ObjectMeta) → (remove_collector_client m once_reconciled.collector_clients).0 ≡ ok tt)
Reached-IsSound_example =
    Reached-IsSound kube host no_secret engine "kind: Deployment" "kind: Secret" (some "k8s")
      once-Reached
