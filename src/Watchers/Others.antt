-- ===== src/Watchers/Others.antt =====
-- What adding and removing one resource leaves of the others, wherever they are registered.
use gmos_k8s_operator.Prelude.{
  String, ◌≡◌, false, List, inl, inr, arith, ◌==◌, Bool-cases, Option-cases,
}
use gmos_k8s_operator.Dict
use gmos_k8s_operator.Poller.{has_update_handler_for_resource}
use gmos_k8s_operator.Watchers.{
  Watchers, find_poller, remove_handler, remove_glidein_manager_watcher, add_watcher,
}
use gmos_k8s_operator.Watchers.Registered.{
  IsKeyed, registered, find_poller-some, registered-remove_handler,
}
use gmos_k8s_operator.Watchers.Keyed.{cleared, registered-add}

module _ {H : Type 0} (order : List String) (resource r : String) (other : (resource == r) ≡ false)
    (ws : Watchers H) (K : IsKeyed ws) where
  pub registered-remove_other :
      (v : String)
      → registered (remove_glidein_manager_watcher order resource ws) v r ≡ registered ws v r
  unfolding remove_glidein_manager_watcher remove_handler
  registered-remove_other v = elim (Option-cases (find_poller order resource ws.active)) [
    | inl missing ↦ rw missing
    | inr ((url, poller), found) ↦
        let (held, _) = find_poller-some order resource ws.active url poller found in
        rw
          (
            found,
            registered-remove_handler ws resource url poller (K.url_lem url poller held) held,
            other,
          )
          (ground arith)
  ]

  registered-cleared_other :
      (url v : String) → registered (cleared order url resource ws) v r ≡ registered ws v r
  unfolding cleared
  registered-cleared_other url v = elim (Option-cases (Dict.lookup url ws.active)) [
    | inl missing ↦ rw (missing, cleared)
    | inr (poller, held) ↦ elim (Bool-cases (has_update_handler_for_resource resource poller)) [
      | inl has ↦ rw (held, cleared, has)
      | inr lacks ↦ rw (held, cleared, lacks) (registered-remove_other v)
    ]
  ]

  pub registered-add_other :
      (client_name url : String) (h : H) (v : String)
      → registered (add_watcher order client_name url resource h ws) v r ≡ registered ws v r
  registered-add_other client_name url h v =
      rw
        (
          registered-add order client_name url resource h ws K,
          registered-cleared_other url v,
          other,
        )
        (ground arith)
