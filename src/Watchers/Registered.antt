-- ===== src/Watchers/Registered.antt =====
-- Which resources are registered at which managers, as the operations on the watchers change it.
use gmos_k8s_operator.Prelude.{
  String, ◌≡◌, refl, ap, Option, none, some, Bool, true, false, ◌&&◌, ◌||◌, not, List, [], ◌∷◌, inl,
  inr, arith, ◌==◌, eq_iff, Bool-cases, if◌then◌else◌,
}
use gmos_k8s_operator.Dict
use gmos_k8s_operator.Dict.{Dict}
use gmos_k8s_operator.Poller.{
  GlideinManagerPoller, has_update_handler_for_resource, set_update_handler, remove_update_handler,
  new_glidein_manager_poller,
}
use gmos_k8s_operator.Watchers.{Watchers, find_poller, remove_handler, detach}

pub has-new_glidein_manager_poller :
    (H : Type 0) (r client_name url : String)
    → has_update_handler_for_resource r (new_glidein_manager_poller {H = H} client_name url) ≡ false
unfolding has_update_handler_for_resource new_glidein_manager_poller Dict.has_key Dict.lookup
has-new_glidein_manager_poller H r client_name url = refl

module _ {H : Type 0} where
  abbrev pub poller_has : String → Option (GlideinManagerPoller H) → Bool
  poller_has resource none = false
  poller_has resource (some poller) = has_update_handler_for_resource resource poller

  -- The manager at this URL polls for this resource.
  unfoldable pub registered : Watchers H → String → String → Bool
  registered ws url resource = poller_has resource (Dict.lookup url ws.active)

  -- Each poller is filed under its manager's URL, and has a resource to poll for.
  pub record IsKeyed (ws : Watchers H) : Type 0 where
    pub url_lem :
        (url : String) (poller : GlideinManagerPoller H)
        → Dict.lookup url ws.active ≡ some poller
        → poller.manager_url ≡ url
    pub used :
        (url : String) (poller : GlideinManagerPoller H)
        → Dict.lookup url ws.active ≡ some poller
        → Dict.is_empty poller.update_handlers ≡ false

  pub has-set_update_handler :
      (r resource : String) (h : H) (poller : GlideinManagerPoller H)
      → has_update_handler_for_resource r (set_update_handler resource h poller)
        ≡ (resource == r || has_update_handler_for_resource r poller)
  unfolding has_update_handler_for_resource set_update_handler
  has-set_update_handler r resource h poller =
      Dict.has_key-insert r resource h poller.update_handlers

  pub has-remove_update_handler :
      (r resource : String) (poller : GlideinManagerPoller H)
      → has_update_handler_for_resource r (remove_update_handler resource poller)
        ≡ (not (resource == r) && has_update_handler_for_resource r poller)
  unfolding has_update_handler_for_resource remove_update_handler
  has-remove_update_handler r resource poller = Dict.has_key-erase r resource poller.update_handlers

  pub find_poller-some :
      (order : List String) (resource : String) (active : Dict (GlideinManagerPoller H))
      (url : String) (poller : GlideinManagerPoller H)
      → find_poller order resource active ≡ some (url, poller)
      → (Dict.lookup url active ≡ some poller)
        × (has_update_handler_for_resource resource poller ≡ true)
  unfolding find_poller
  find_poller-some [] resource active url poller h = cc
  find_poller-some (u ∷ urls) resource active url poller h =
      ground (arith, find_poller-some urls resource active url poller)

  -- What the map holds after the handler was taken from a poller that was found under its URL.
  abbrev pub kept : GlideinManagerPoller H → Option (GlideinManagerPoller H)
  kept poller = if Dict.is_empty poller.update_handlers then none else some poller

  pub lookup-remove_handler :
      (ws : Watchers H) (resource url : String) (poller : GlideinManagerPoller H)
      → poller.manager_url ≡ url
      → (v : String)
      → Dict.lookup v (remove_handler resource (some (url, poller)) ws).active ≡ (
          if url == v
          then kept (remove_update_handler resource poller)
          else Dict.lookup v ws.active)
  unfolding remove_handler detach remove_update_handler
  lookup-remove_handler ws resource url poller e v =
      let poller' : GlideinManagerPoller H = remove_update_handler resource poller in
      ground (
        arith,
        ap (λ u. Dict.lookup v (Dict.erase u (Dict.insert url poller' ws.active))) e,
        Dict.lookup-erase v url (Dict.insert url poller' ws.active),
        Dict.lookup-insert v url poller' ws.active,
      )

  poller_has-kept :
      (r : String) (poller : GlideinManagerPoller H)
      → poller_has r (kept poller) ≡ has_update_handler_for_resource r poller
  unfolding has_update_handler_for_resource Dict.has_key
  poller_has-kept r poller = ground (arith, Dict.lookup-nil_of_empty r poller.update_handlers)

  pub registered-remove_handler :
      (ws : Watchers H) (resource url : String) (poller : GlideinManagerPoller H)
      → poller.manager_url ≡ url
      → Dict.lookup url ws.active ≡ some poller
      → (v r : String)
      → registered (remove_handler resource (some (url, poller)) ws) v r
        ≡ (registered ws v r && not (url == v && resource == r))
  unfolding registered
  registered-remove_handler ws resource url poller e found v r =
      rw (lookup-remove_handler ws resource url poller e v) (elim (Bool-cases (url == v)) [
        | inl same ↦
            rw (same, poller_has-kept, has-remove_update_handler, ← (eq_iff url v).0 same, found)
              (ground arith)
        | inr other ↦ rw other (ground arith)
      ])
