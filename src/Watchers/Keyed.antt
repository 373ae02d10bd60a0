-- ===== src/Watchers/Keyed.antt =====
-- What adding a GlideinSet does to the watchers, and the invariant of the map.
use gmos_k8s_operator.Prelude.{
  String, ◌≡◌, refl, none, some, false, ◌&&◌, ◌||◌, List, inl, inr, arith, ◌==◌, eq_iff, Bool-cases,
  Option-cases, if◌then◌else◌,
}
use gmos_k8s_operator.Dict
use gmos_k8s_operator.Dict.{Dict}
use gmos_k8s_operator.Poller.{
  GlideinManagerPoller, has_update_handler_for_resource, set_update_handler, remove_update_handler,
  new_glidein_manager_poller,
}
use gmos_k8s_operator.Watchers.{
  Watchers, find_poller, remove_handler, remove_glidein_manager_watcher, add_watcher, update_poller,
}
use gmos_k8s_operator.Watchers.Registered.{
  IsKeyed, registered, kept, find_poller-some, lookup-remove_handler, has-set_update_handler,
  has-new_glidein_manager_poller,
}

module _ {H : Type 0} where
  -- A poller that lacks the resource outlives its removal elsewhere.
  lookup-remove :
      (order : List String) (resource url : String) (ws : Watchers H)
      (poller : GlideinManagerPoller H)
      → IsKeyed ws
      → Dict.lookup url ws.active ≡ some poller
      → has_update_handler_for_resource resource poller ≡ false
      → Dict.lookup url (remove_glidein_manager_watcher order resource ws).active ≡ some poller
  unfolding remove_glidein_manager_watcher remove_handler
  lookup-remove order resource url ws poller K held lacks =
      elim (Option-cases (find_poller order resource ws.active)) [
        | inl missing ↦ rw missing held
        | inr ((u, p), found) ↦
            let (held', has) = find_poller-some order resource ws.active u p found in
            rw (found, lookup-remove_handler ws resource u p (K.url_lem u p held') url)
              (ground (arith, eq_iff u url))
      ]

  lookup-update_poller :
      (f : GlideinManagerPoller H → GlideinManagerPoller H) (url v : String) (ws : Watchers H)
      (poller : GlideinManagerPoller H)
      → Dict.lookup url ws.active ≡ some poller
      → Dict.lookup v (update_poller f url ws).active
        ≡ (if url == v then some (f poller) else Dict.lookup v ws.active)
  unfolding update_poller
  lookup-update_poller f url v ws poller held =
      ground (arith, Dict.lookup-insert v url (f poller) ws.active)

  -- A map that differs at one URL, where it has a poller of that URL with a handler, or nothing.
  kept-IsKeyed :
      (ws ws' : Watchers H) (url : String) (poller : GlideinManagerPoller H)
      → IsKeyed ws
      → ((v : String)
          → Dict.lookup v ws'.active ≡ (if url == v then kept poller else Dict.lookup v ws.active))
      → poller.manager_url ≡ url
      → IsKeyed ws'
  kept-IsKeyed ws ws' url poller K look e = record {
    url_lem = λ v p held. ground (arith, look v, eq_iff url v, K.url_lem v p);
    used = λ v p held. ground (arith, look v, eq_iff url v, K.used v p);
  }

  -- The watchers from which the resource was removed, where `add` does that first.
  unfoldable pub cleared : List String → String → String → Watchers H → Watchers H
  cleared order url resource ws = elim (Dict.lookup url ws.active) [
    | none ↦ ws
    | some poller ↦
        if has_update_handler_for_resource resource poller
        then ws
        else remove_glidein_manager_watcher order resource ws
  ]

  module _ (order : List String) (client_name url resource : String) (h : H) where
    pub registered-add :
        (ws : Watchers H)
        → IsKeyed ws
        → (v r : String)
        → registered (add_watcher order client_name url resource h ws) v r
          ≡ (registered (cleared order url resource ws) v r || (url == v && resource == r))
    unfolding registered cleared add_watcher
    registered-add ws K v r = elim (Option-cases (Dict.lookup url ws.active)) [
      | inl missing ↦ ground (
        arith,
        Dict.lookup-insert v url
            (set_update_handler resource h (new_glidein_manager_poller client_name url)) ws.active,
        has-set_update_handler r resource h (new_glidein_manager_poller client_name url),
        has-new_glidein_manager_poller H r client_name url,
        eq_iff url v,
      )
      | inr (poller, held) ↦ elim (Bool-cases (has_update_handler_for_resource resource poller)) [
        | inl has ↦ ground (arith, eq_iff url v, eq_iff resource r)
        | inr lacks ↦ ground (
          arith,
          lookup-update_poller (set_update_handler resource h) url v
              (remove_glidein_manager_watcher order resource ws) poller
              (lookup-remove order resource url ws poller K held lacks),
          lookup-remove order resource url ws poller K held lacks,
          has-set_update_handler r resource h poller,
          eq_iff url v,
        )
      ]
    ]

  pub remove-IsKeyed :
      (order : List String) (resource : String) (ws : Watchers H)
      → IsKeyed ws
      → IsKeyed (remove_glidein_manager_watcher order resource ws)
  unfolding remove_glidein_manager_watcher remove_handler
  remove-IsKeyed order resource ws K = elim (Option-cases (find_poller order resource ws.active)) [
    | inl missing ↦ rw missing K
    | inr ((url, poller), found) ↦
        let held = (find_poller-some order resource ws.active url poller found).0 in
        rw found (
          kept-IsKeyed ws (remove_handler resource (some (url, poller)) ws) url
            (remove_update_handler resource poller) K
            (lookup-remove_handler ws resource url poller (K.url_lem url poller held))
            (unfold remove_update_handler in K.url_lem url poller held))
  ]

  set-IsKeyed :
      (ws ws' : Watchers H) (url : String) (poller : GlideinManagerPoller H)
      → IsKeyed ws
      → ((v : String)
          → Dict.lookup v ws'.active ≡ (if url == v then some poller else Dict.lookup v ws.active))
      → poller.manager_url ≡ url
      → Dict.is_empty poller.update_handlers ≡ false
      → IsKeyed ws'
  set-IsKeyed ws ws' url poller K look e used =
      kept-IsKeyed ws ws' url poller K (λ v. rw used (look v)) e

  pub add-IsKeyed :
      (order : List String) (client_name url resource : String) (h : H) (ws : Watchers H)
      → IsKeyed ws
      → IsKeyed (add_watcher order client_name url resource h ws)
  unfolding add_watcher set_update_handler
  add-IsKeyed order client_name url resource h ws K =
      elim (Option-cases (Dict.lookup url ws.active)) [
        | inl missing ↦
            rw (missing, add_watcher)
              (set-IsKeyed ws _ url
                (set_update_handler resource h (new_glidein_manager_poller client_name url)) K
                (λ v. Dict.lookup-insert v url _ ws.active)
                (unfold new_glidein_manager_poller in refl) (Dict.is_empty-insert resource h _))
        | inr (poller, held) ↦ elim (Bool-cases (has_update_handler_for_resource resource poller)) [
          | inl has ↦ rw (held, add_watcher, has) K
          | inr lacks ↦
              rw (held, add_watcher, lacks)
                (set-IsKeyed (remove_glidein_manager_watcher order resource ws) _ url
                  (set_update_handler resource h poller) (remove-IsKeyed order resource ws K)
                  (λ v.
                    lookup-update_poller (set_update_handler resource h) url v
                      (remove_glidein_manager_watcher order resource ws) poller
                      (lookup-remove order resource url ws poller K held lacks))
                  (K.url_lem url poller held) (Dict.is_empty-insert resource h _))
        ]
      ]
