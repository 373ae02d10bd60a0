-- ===== src/Tests/Clients.antt =====
-- A collector's pods, and collector clients that come and go.
use gmos_k8s_operator.Prelude.{ℕ, ◌≡◌, refl, none, some, true, false, List, [], ◌∷◌}
use gmos_k8s_operator.Exec.{ok}
use gmos_k8s_operator.CollectorClient.{
  add_collector_client, remove_collector_client, CollectorClient, TokenLoopStep, stop_client,
  CollectorUpdateHandler, Pod, PodClient, exec_in_collector, handle_token_updates,
}
use gmos_k8s_operator.CollectorClient.Tokens.{exec_in_collector-pod, handle_token_updates-no_pod}
use gmos_k8s_operator.Tests.Cluster.{osg}
use gmos_k8s_operator.Dict
use gmos_k8s_operator.CollectorClient.Clients.{added_client}
use gmos_k8s_operator.CollectorClient.Running.{
  ClientCall, add, remove, no_clients, run_calls, stop_client-run_calls,
}

-- The state of the cluster is its list of collector pods; a token is the pod's name.
abbrev pod_client : PodClient (List Pod)
pod_client = record {
  connect = λ items. (ok tt, items);
  list_pods = λ namespace labels items. (ok items, items);
  new_executor = λ namespace name cmd items. (ok tt, items);
  stream = λ namespace name cmd items. (ok (record { stdout = name; stderr = "" }), items);
}

abbrev collector_pod : Pod
collector_pod = record { name = "pilots-collector-0"; phase = "Running" }

ran_in_pod :
    exec_in_collector pod_client (osg "pilots") [] (collector_pod ∷ [])
    ≡ (ok (record { stdout = "pilots-collector-0"; stderr = "" }), collector_pod ∷ [])
unfolding exec_in_collector
ran_in_pod = refl

exec_in_collector-pod_example :
    (pod : Pod) × (v : List Pod) × (v' : List Pod) × (u : List Pod) × (pod_client.list_pods "osg"
        "gmos.chtc.wisc.edu/app=collector" v
      ≡ (ok (pod ∷ []), v'))
    × (pod.phase ≡ "Running")
    × (pod_client.stream "osg" pod.name [] u
        ≡ (ok (record { stdout = "pilots-collector-0"; stderr = "" }), collector_pod ∷ []))
exec_in_collector-pod_example =
    exec_in_collector-pod pod_client (osg "pilots") [] (collector_pod ∷ []) (collector_pod ∷ [])
      (record { stdout = "pilots-collector-0"; stderr = "" }) ran_in_pod

abbrev eager : CollectorUpdateHandler (List Pod)
eager = record {
  should_update_tokens = λ items. (ok true, items);
  apply_tokens_update = λ glidein pilot items. (ok tt, []);
}

abbrev starting : List Pod
starting = record { name = "pilots-collector-0"; phase = "Pending" } ∷ []

handle_token_updates-no_pod_example :
    handle_token_updates pod_client (osg "pilots") eager starting ≡ (ok tt, starting)
handle_token_updates-no_pod_example =
    handle_token_updates-no_pod pod_client (osg "pilots") eager starting starting starting refl refl
      refl refl

-- Two GlideinSets are added, of which one is added again and the other is removed.
abbrev calls : List (ClientCall ℕ)
calls =
    add (osg "pilots") 1 ∷ add (osg "others") 2 ∷ add (osg "pilots") 3 ∷ remove (osg "others") ∷ []

abbrev polling : CollectorClient ℕ
polling = added_client (osg "pilots") 3 (some (added_client (osg "pilots") 1 none))

polls : Dict.lookup "osg/pilots" (run_calls calls no_clients).active ≡ some polling
unfolding run_calls remove_collector_client add_collector_client Dict.lookup Dict.insert Dict.erase
polls = refl

stop_client-run_calls_example :
    TokenLoopStep
      (stop_client polling).loop
      (record (stop_client polling).loop { running = false; senders = 0 })
stop_client-run_calls_example = stop_client-run_calls calls "osg/pilots" polling polls
