-- ===== src/Watchers/Removal.antt =====
-- removeGlideinManagerWatcher, which visits the pollers in no fixed order and stops at the first hit.
use gmos_k8s_operator.Prelude.{
  String, ◌≡◌, sym, ap, ◌∙◌, none, some, Bool, true, false, ◌&&◌, ◌||◌, not, List, [], ◌∷◌, inl,
  inr, arith, ◌==◌, eq_iff, Bool-cases, Option-cases,
}
use gmos_k8s_operator.Dict
use gmos_k8s_operator.Dict.{Dict}
use gmos_k8s_operator.Poller.{GlideinManagerPoller, has_update_handler_for_resource}
use gmos_k8s_operator.Watchers.{
  Watchers, find_poller, remove_handler, remove_glidein_manager_watcher,
}
use gmos_k8s_operator.Watchers.Registered.{
  IsKeyed, registered, poller_has, find_poller-some, registered-remove_handler,
}

abbrev pub visits : List String → String → Bool
visits [] url = false
visits (u ∷ urls) url = u == url || visits urls url

module _ {H : Type 0} where
  abbrev pub AtMostOne : Watchers H → String → Type 0
  AtMostOne ws resource =
      (u v : String) → registered ws u resource ≡ true → registered ws v resource ≡ true → u ≡ v

  -- The order reaches every manager at which the resource is registered.
  abbrev pub Reaches : List String → Watchers H → String → Type 0
  Reaches order ws resource = (u : String) → registered ws u resource ≡ true → visits order u ≡ true

  is_registered :
      (ws : Watchers H) (resource url : String) (poller : GlideinManagerPoller H)
      → Dict.lookup url ws.active ≡ some poller
      → has_update_handler_for_resource resource poller ≡ true
      → registered ws url resource ≡ true
  unfolding registered
  is_registered ws resource url poller held has = rw held has

  find_poller-none :
      (order : List String) (resource u : String) (active : Dict (GlideinManagerPoller H))
      → find_poller order resource active ≡ none
      → visits order u ≡ true
      → poller_has resource (Dict.lookup u active) ≡ false
  unfolding find_poller
  find_poller-none [] resource u active h v = cc
  find_poller-none (url ∷ urls) resource u active h v =
      ground (arith, find_poller-none urls resource u active, eq_iff url u)

  module _ (order : List String) (resource : String) (ws : Watchers H) (K : IsKeyed ws)
      (reach : Reaches order ws resource) where
    not_registered :
        find_poller order resource ws.active ≡ none
        → (u : String) → registered ws u resource ≡ false
    unfolding registered
    not_registered h u = elim (Bool-cases (registered ws u resource)) [
      | inl yes_u ↦ find_poller-none order resource u ws.active h (reach u yes_u)
      | inr no_u ↦ no_u
    ]

    -- Where the map is keyed by URL: a removal takes the resource from every manager, and changes
    -- no other registration, if the resource was at one manager at most and the visits reach that
    -- one.
    pub registered-remove :
        AtMostOne ws resource
        → (u r : String)
        → registered (remove_glidein_manager_watcher order resource ws) u r
          ≡ (registered ws u r && not (resource == r))
    unfolding remove_glidein_manager_watcher remove_handler
    registered-remove one u r = elim (Option-cases (find_poller order resource ws.active)) [
      | inl missing ↦ elim (Bool-cases (resource == r)) [
        | inl same ↦ rw (missing, ← (eq_iff resource r).0 same, not_registered missing u)
        | inr other ↦ rw (missing, other) (ground arith)
      ]
      | inr ((url, poller), found) ↦
          let (held, has) = find_poller-some order resource ws.active url poller found in
          rw
            (
              found,
              registered-remove_handler ws resource url poller (K.url_lem url poller held) held,
            )
            (ground (
              arith,
              eq_iff url u,
              eq_iff resource r,
              one url u (unfold registered in rw held has),
            ))
    ]

  find_poller-at :
      (order : List String) (resource url : String) (poller : GlideinManagerPoller H)
      (active : Dict (GlideinManagerPoller H))
      → Dict.lookup url active ≡ some poller
      → has_update_handler_for_resource resource poller ≡ true
      → ((u : String) → poller_has resource (Dict.lookup u active) ≡ true → u ≡ url)
      → visits order url ≡ true
      → find_poller order resource active ≡ some (url, poller)
  unfolding find_poller
  find_poller-at [] resource url poller active held has one v = cc
  find_poller-at (u ∷ urls) resource url poller active held has one v =
      ground
        (arith, one u, eq_iff u url, find_poller-at urls resource url poller active held has one)

  -- Where the map is keyed by URL: a resource that is registered at one manager at most is
  -- removed alike in every order of the visits that reaches that manager.
  pub remove_in_any_order :
      (order order' : List String) (resource : String) (ws : Watchers H)
      → IsKeyed ws
      → AtMostOne ws resource
      → Reaches order ws resource
      → Reaches order' ws resource
      → remove_glidein_manager_watcher order resource ws
        ≡ remove_glidein_manager_watcher order' resource ws
  unfolding remove_glidein_manager_watcher
  remove_in_any_order order order' resource ws K one reach reach' =
      ap (λ found. remove_handler resource found ws)
        (elim (Option-cases (find_poller order resource ws.active)) [
          | inl missing ↦ elim (Option-cases (find_poller order' resource ws.active)) [
            | inl missing' ↦ missing ∙ sym missing'
            | inr ((url, poller), found) ↦
                let (held, has) = find_poller-some order' resource ws.active url poller found in
                cc (
                  not_registered order resource ws K reach missing url,
                  is_registered ws resource url poller held has,
                )
          ]
          | inr ((url, poller), found) ↦
              let (held, has) = find_poller-some order resource ws.active url poller found in
              found
              ∙ sym (
                  find_poller-at order' resource url poller ws.active held has
                    (λ u h.
                      unfold registered in
                      one u url h (is_registered ws resource url poller held has))
                    (reach' url (is_registered ws resource url poller held has)))
        ])
