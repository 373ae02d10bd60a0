-- ===== src/CollectorClient.antt =====
-- internal/controller/collector_client.go: the tokens of the local collector, and the map of clients.
pub mod Clients
pub mod Running
pub mod Tokens
use gmos_k8s_operator.Prelude.{
  ℕ, zero, suc, ◌≡◌, true, false, String, none, some, Bool, List, [], ◌∷◌, ◌==◌, if◌then◌else◌,
}
use gmos_k8s_operator.Poller.{Ticker, unset, ticking, is_set, stop}
use gmos_k8s_operator.Dict
use gmos_k8s_operator.Dict.{Dict}
use gmos_k8s_operator.Types.{ObjectMeta}
use gmos_k8s_operator.ResourceName.{namespaced_name_for}
use gmos_k8s_operator.Exec.{
  Error, Result, ok, err, panic, message, Exec, pure, raise, lift, outcome, if_ok, ◌>>=◌, ◌>>◌,
}

-- The interface CollectorUpdateHandler.
pub record CollectorUpdateHandler (W : Type 0) : Type 0 where
  pub should_update_tokens : Exec W Bool
  pub apply_tokens_update : String → String → Exec W (Unit {0})

-- The parts of v1.Pod that are read.
pub record Pod : Type 0 where
  pub name : String
  pub phase : String

pub record ExecOutput : Type 0 where
  pub stdout : String
  pub stderr : String

-- client-go, by which the operator runs a command in a pod.
pub record PodClient (W : Type 0) : Type 0 where
  -- GetConfig and NewForConfig
  pub connect : Exec W (Unit {0})
  -- the pods of a namespace that a label selector picks
  pub list_pods : String → String → Exec W (List Pod)
  -- NewSPDYExecutor and StreamWithContext on a pod of a namespace
  pub new_executor : String → String → List String → Exec W (Unit {0})
  pub stream : String → String → List String → Exec W ExecOutput

-- The only pod; the text of the error leaves the number out.
unfoldable pub only_pod : String → List Pod → Result Pod
only_pod owner (pod ∷ []) = ok pod
only_pod owner _ = err (message "expected 1 collector pod")

abbrev pub err_pod_not_running : Error
err_pod_not_running = message "pod not in Running state"

unfoldable pub token_command : String → List String
token_command identity = "condor_token_create" ∷ "-identity" ∷ identity ∷ "-key" ∷ "NAMESPACE" ∷ []

module _ {W : Type 0} (pods : PodClient W) where
  unfoldable pub exec_in_collector : ObjectMeta → List String → Exec W ExecOutput
  unfolding only_pod lift ◌>>=◌
  exec_in_collector resource cmd = do
    pods.connect
    items ← pods.list_pods resource.namespace "gmos.chtc.wisc.edu/app=collector"
    pod ← lift (only_pod resource.name items)
    if pod.phase == "Running"
        then (do
          pods.new_executor resource.namespace pod.name cmd
          pods.stream resource.namespace pod.name cmd)
        else raise err_pod_not_running

  unfoldable pub apply_new_tokens :
      CollectorUpdateHandler W → Result ExecOutput → Result ExecOutput → Exec W (Unit {0})
  unfolding if_ok pure
  apply_new_tokens handler (ok glidein_token) (ok pilot_token) =
      if_ok (handler.apply_tokens_update glidein_token.stdout pilot_token.stdout) pure
  apply_new_tokens handler _ _ = pure tt

  unfoldable pub handle_token_updates : ObjectMeta → CollectorUpdateHandler W → Exec W (Unit {0})
  unfolding exec_in_collector apply_new_tokens outcome if_ok token_command ◌>>=◌
  handle_token_updates resource handler = if_ok handler.should_update_tokens λ should_update.
      if should_update
      then (do
        glidein_token ← outcome (exec_in_collector resource (token_command "glidein@cluster.local"))
        pilot_token ← outcome (exec_in_collector resource (token_command "pilot@cluster.local"))
        apply_new_tokens handler glidein_token pilot_token)
      else pure tt

-- The ticker of a client, its goroutine, and the sends on `doneChan` that wait for it: the channel has
-- no buffer.
pub record TokenLoop : Type 0 where
  pub token_update_ticker : Ticker
  pub running : Bool
  pub senders : ℕ

abbrev pub no_loop : TokenLoop
no_loop = record { token_update_ticker = unset; running = false; senders = 0 }

-- CollectorClient.startPolling
unfoldable pub start_token_polling : TokenLoop → TokenLoop
unfolding is_set
start_token_polling l =
    if is_set l.token_update_ticker
    then l
    else record l { token_update_ticker = ticking; running = true }

-- CollectorClient.stopPolling, which sends whether the client was started or not
unfoldable pub stop_token_polling : TokenLoop → TokenLoop
unfolding stop
stop_token_polling l = record l {
  token_update_ticker = stop l.token_update_ticker;
  senders = suc l.senders;
}

-- The goroutine takes a value from `doneChan` and ends. A tick changes nothing here.
pub data TokenLoopStep : TokenLoop → TokenLoop → Type 0 where
  done :
      (l : TokenLoop) (n : ℕ)
      → l.running ≡ true
      → l.senders ≡ suc n
      → TokenLoopStep l (record l { running = false; senders = n })

taken : ℕ → ℕ
taken zero = zero
taken (suc n) = n

-- A loop after its goroutine received a value and returned, by the step `done`.
unfoldable pub receive_done : TokenLoop → TokenLoop
unfolding taken
receive_done l = record l { running = false; senders = taken l.senders }

pub record CollectorClient (H : Type 0) : Type 0 where
  pub resource : ObjectMeta
  pub update_handler : H
  pub loop : TokenLoop

-- The map `collectorClients`. `removed` are the clients that were taken out of it.
pub record CollectorClients (H : Type 0) : Type 0 where
  pub active : Dict (CollectorClient H)
  pub removed : List (CollectorClient H)

module _ {H : Type 0} where
  unfoldable pub new_collector_client : ObjectMeta → H → CollectorClient H
  new_collector_client resource handler = record {
    resource = resource;
    update_handler = handler;
    loop = no_loop;
  }

  unfoldable pub start_client : CollectorClient H → CollectorClient H
  unfolding start_token_polling
  start_client client = record client { loop = start_token_polling client.loop }

  unfoldable pub stop_client : CollectorClient H → CollectorClient H
  unfolding stop_token_polling
  stop_client client = record client { loop = stop_token_polling client.loop }

  unfoldable pub stopped_client : CollectorClient H → CollectorClient H
  unfolding stop_client receive_done
  stopped_client client = record client { loop = receive_done (stop_client client).loop }

  -- A client that exists keeps its goroutine and gets the new resource and handler.
  unfoldable pub add_collector_client : ObjectMeta → H → CollectorClients H → CollectorClients H
  unfolding new_collector_client start_client namespaced_name_for
  add_collector_client resource handler clients =
      elim (Dict.lookup (namespaced_name_for resource) clients.active) [
        | none ↦ record clients {
          active =
              Dict.insert (namespaced_name_for resource)
                (start_client (new_collector_client resource handler)) clients.active;
        }
        | some existing_client ↦ record clients {
          active =
              Dict.insert (namespaced_name_for resource)
                (record existing_client { resource = resource; update_handler = handler })
                clients.active;
        }
      ]

  -- The send of `stopPolling` returns once the goroutine received the value, and the client is then
  -- deleted from the map. Where no goroutine runs the send waits for ever: the call does not return,
  -- and the client stays in the map.
  unfoldable pub remove_collector_client : ObjectMeta → Exec (CollectorClients H) (Unit {0})
  unfolding stop_client stopped_client namespaced_name_for
  remove_collector_client resource clients =
      elim (Dict.lookup (namespaced_name_for resource) clients.active) [
        | none ↦ (ok tt, clients)
        | some existing_client ↦
            if existing_client.loop.running
            then (
              ok tt,
              record clients {
                active = Dict.erase (namespaced_name_for resource) clients.active;
                removed = stopped_client existing_client ∷ clients.removed;
              },
            )
            else (
              panic,
              record clients {
                active =
                    Dict.insert (namespaced_name_for resource) (stop_client existing_client)
                      clients.active;
              },
            )
      ]
