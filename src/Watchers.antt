-- ===== src/Watchers.antt =====
-- internal/controller/glideinmanager_client.go: the map `activeGlideinManagerPollers`, and how a
-- GlideinSet is added to it and removed from it.
pub mod Registered
pub mod Keyed
pub mod Others
pub mod Moved
pub mod Removal
pub mod Guarantees
pub mod Home
use gmos_k8s_operator.Prelude.{String, Option, none, some, List, [], ◌∷◌, if◌then◌else◌}
use gmos_k8s_operator.Dict
use gmos_k8s_operator.Dict.{Dict}
use gmos_k8s_operator.Exec.{ok, err, message, Exec}
use gmos_k8s_operator.Poller.{
  GlideinManagerPoller, new_glidein_manager_poller, has_update_handler_for_resource,
  set_update_handler, remove_update_handler, stop_polling,
}

-- `detached` are the pollers that were taken out of the map and told to stop.
pub record Watchers (H : Type 0) : Type 0 where
  pub active : Dict (GlideinManagerPoller H)
  pub detached : List (GlideinManagerPoller H)

module _ {H : Type 0} where
  -- The loop of `removeGlideinManagerWatcher`, which visits the pollers in the given order of their
  -- keys and breaks at the first that has the resource.
  unfoldable pub find_poller :
      List String
      → String
      → Dict (GlideinManagerPoller H)
      → Option (String × GlideinManagerPoller H)
  find_poller [] resource active = none
  find_poller (url ∷ urls) resource active =
      let rest = find_poller urls resource active in
      elim (Dict.lookup url active) [
        | none ↦ rest
        | some poller ↦
            if has_update_handler_for_resource resource poller then some (url, poller) else rest
      ]

  unfoldable pub detach : GlideinManagerPoller H → Watchers H → Watchers H
  detach poller ws = record {
    active = Dict.erase poller.manager_url ws.active;
    detached = record poller { loops = stop_polling poller.loops } ∷ ws.detached;
  }

  unfoldable pub remove_handler :
      String → Option (String × GlideinManagerPoller H) → Watchers H → Watchers H
  remove_handler resource none ws = ws
  remove_handler resource (some (url, poller)) ws =
      let poller' = remove_update_handler resource poller in
      let ws' = record ws { active = Dict.insert url poller' ws.active } in
      if Dict.is_empty poller'.update_handlers then detach poller' ws' else ws'

  -- `order` is the order in which the map's `range` runs through its keys.
  unfoldable pub remove_glidein_manager_watcher : List String → String → Watchers H → Watchers H
  remove_glidein_manager_watcher order resource ws =
      remove_handler resource (find_poller order resource ws.active) ws

  unfoldable pub update_poller :
      (GlideinManagerPoller H → GlideinManagerPoller H) → String → Watchers H → Watchers H
  update_poller f url ws = elim (Dict.lookup url ws.active) [
    | none ↦ ws
    | some poller ↦ record ws { active = Dict.insert url (f poller) ws.active }
  ]

  unfoldable pub add_watcher : List String → String → String → String → H → Watchers H → Watchers H
  add_watcher order client_name url resource handler ws = elim (Dict.lookup url ws.active) [
    | none ↦ record ws {
      active =
          Dict.insert url
            (set_update_handler resource handler (new_glidein_manager_poller client_name url))
            ws.active;
    }
    | some existing_poller ↦
        if has_update_handler_for_resource resource existing_poller
        then ws
        else update_poller (set_update_handler resource handler) url
            (remove_glidein_manager_watcher order resource ws)
  ]

  -- `env` is CLIENT_NAME. The goroutine that the source starts here is the module Poller's.
  unfoldable pub add_glidein_manager_watcher :
      Option String → List String → String → String → H → Exec (Watchers H) (Unit {0})
  add_glidein_manager_watcher env order url resource handler ws = elim env [
    | none ↦ (err (message "env var CLIENT_NAME missing"), ws)
    | some client_name ↦ (ok tt, add_watcher order client_name url resource handler ws)
  ]
