-- ===== src/Watchers/Guarantees.antt =====
-- What adding and removing promise, over one call and over a whole run.
use gmos_k8s_operator.Prelude.{
  String, ◌≡◌, none, some, true, false, List, [], ◌∷◌, inl, inr, arith, ◌==◌, eq_iff, eq_refl,
  Bool-cases, Option-cases, if◌then◌else◌,
}
use gmos_k8s_operator.Dict
use gmos_k8s_operator.Poller.{GlideinManagerPoller, has_update_handler_for_resource}
use gmos_k8s_operator.Watchers.{Watchers, remove_glidein_manager_watcher, add_watcher}
use gmos_k8s_operator.Watchers.Registered.{IsKeyed, registered}
use gmos_k8s_operator.Watchers.Removal.{AtMostOne, Reaches, registered-remove}
use gmos_k8s_operator.Watchers.Others.{registered-add_other}
use gmos_k8s_operator.Watchers.Keyed.{cleared, registered-add, add-IsKeyed, remove-IsKeyed}

-- One call of addGlideinManagerWatcher or removeGlideinManagerWatcher, with the order of its visits.
pub data WatcherCall (H : Type 0) : Type 0 where
  add : List String → String → String → String → H → WatcherCall H
  remove : List String → String → WatcherCall H

module _ {H : Type 0} where
  abbrev pub no_watchers : Watchers H
  no_watchers = record { active = []; detached = [] }

  unfoldable pub call : WatcherCall H → Watchers H → Watchers H
  call (add order client_name url resource h) ws = add_watcher order client_name url resource h ws
  call (remove order resource) ws = remove_glidein_manager_watcher order resource ws

  unfoldable pub run : List (WatcherCall H) → Watchers H → Watchers H
  unfolding call
  run [] ws = ws
  run (c ∷ cs) ws = run cs (call c ws)

  call-IsKeyed : (c : WatcherCall H) (ws : Watchers H) → IsKeyed ws → IsKeyed (call c ws)
  unfolding call
  call-IsKeyed (add order client_name url resource h) ws K =
      add-IsKeyed order client_name url resource h ws K
  call-IsKeyed (remove order resource) ws K = remove-IsKeyed order resource ws K

  add_watcher-registered :
      (order : List String) (client_name url resource : String) (h : H) (ws : Watchers H)
      → registered ws url resource ≡ true
      → add_watcher order client_name url resource h ws ≡ ws
  unfolding registered add_watcher
  add_watcher-registered order client_name url resource h ws at =
      elim (Option-cases (Dict.lookup url ws.active)) [
        | inl missing ↦ cc (rw missing at at)
        | inr (poller, held) ↦ rw (held, add_watcher, rw held at at)
      ]

  -- Whatever is added and removed, a poller stays filed under its own manager's URL, and keeps at
  -- least one handler while it is in the map.
  pub run-IsKeyed :
      (calls : List (WatcherCall H)) (ws : Watchers H) → IsKeyed ws → IsKeyed (run calls ws)
  unfolding run
  run-IsKeyed [] ws K = K
  run-IsKeyed (c ∷ cs) ws K = run-IsKeyed cs (call c ws) (call-IsKeyed c ws K)

  module _ (order : List String) (client_name url resource : String) (h : H) (ws : Watchers H)
      (K : IsKeyed ws) where
    pub registered_at_url :
        registered (add_watcher order client_name url resource h ws) url resource ≡ true
    registered_at_url =
        rw (registered-add order client_name url resource h ws K)
          (ground (arith, eq_refl url, eq_refl resource))

    -- A second call for the same manager changes nothing: its handler is dropped.
    pub add_watcher_again :
        (order' : List String) (client_name' : String) (h' : H)
        → add_watcher order' client_name' url resource h'
            (add_watcher order client_name url resource h ws)
          ≡ add_watcher order client_name url resource h ws
    add_watcher_again order' client_name' h' =
        add_watcher-registered order' client_name' url resource h'
          (add_watcher order client_name url resource h ws) registered_at_url

    at_known_manager :
        {poller : GlideinManagerPoller H}
        → Dict.lookup url ws.active ≡ some poller
        → AtMostOne ws resource
        → Reaches order ws resource
        → (v : String)
        → registered (add_watcher order client_name url resource h ws) v resource ≡ (url == v)
    unfolding cleared
    at_known_manager {poller} held one reach v =
        rw (registered-add order client_name url resource h ws K, eq_refl resource)
          (elim (Bool-cases (has_update_handler_for_resource resource poller)) [
            | inl has ↦
                rw (held, cleared, has)
                  (ground (arith, one url v (unfold registered in rw held has), eq_iff url v))
            | inr lacks ↦
                rw
                  (
                    held,
                    cleared,
                    lacks,
                    registered-remove order resource ws K reach one v resource,
                    eq_refl resource,
                  )
                  (ground arith)
          ])

    -- Where the map is keyed by URL: a resource that was at one manager at most, which the visits
    -- reach, and is added at a manager that already has a poller, is then at that manager, and at
    -- no other; no registration of another resource changes.
    pub add_at_known_manager :
        {poller : GlideinManagerPoller H}
        → Dict.lookup url ws.active ≡ some poller
        → AtMostOne ws resource
        → Reaches order ws resource
        → (v r : String)
        → registered (add_watcher order client_name url resource h ws) v r
          ≡ (if resource == r then url == v else registered ws v r)
    add_at_known_manager held one reach v r = elim (Bool-cases (resource == r)) [
      | inl same ↦ rw (same, ← (eq_iff resource r).0 same) (at_known_manager held one reach v)
      | inr other ↦ rw other (registered-add_other order resource r other ws K client_name url h v)
    ]

    -- Where the map is keyed by URL: a resource that is registered elsewhere, and is added at a
    -- manager without a poller, is then registered at both.
    pub add_at_new_manager :
        (v : String)
        → Dict.lookup url ws.active ≡ none
        → registered ws v resource ≡ true
        → (registered (add_watcher order client_name url resource h ws) v resource ≡ true)
          × (registered (add_watcher order client_name url resource h ws) url resource ≡ true)
          × ((url == v) ≡ false)
    unfolding cleared
    add_at_new_manager v missing there = (
      rw (registered-add order client_name url resource h ws K, missing, cleared, there),
      registered_at_url,
      let absent : registered ws url resource ≡ false = unfold registered in rw missing in
          ground (arith, eq_iff url v),
    )
