-- ===== src/Watchers/Home.antt =====
-- Watchers whose resources each have one manager: what adding a resource at its own manager and
-- removing a resource keep.
use gmos_k8s_operator.Prelude.{
  String, ◌≡◌, sym, refl, ◌∙◌, some, true, ◌&&◌, List, inl, inr, arith, ◌==◌, eq_iff, Bool-cases,
  Option-cases,
}
use gmos_k8s_operator.Dict
use gmos_k8s_operator.Poller.{Loops, GlideinManagerPoller, has_update_handler_for_resource}
use gmos_k8s_operator.Watchers.Moved.{moved, moved-IsKeyed, registered-moved}
use gmos_k8s_operator.Watchers.{
  Watchers, find_poller, remove_handler, remove_glidein_manager_watcher, add_watcher,
}
use gmos_k8s_operator.Watchers.Registered.{
  IsKeyed, registered, find_poller-some, registered-remove_handler,
}
use gmos_k8s_operator.Watchers.Keyed.{cleared, registered-add, remove-IsKeyed, add-IsKeyed}
use gmos_k8s_operator.Watchers.Removal.{AtMostOne}
use gmos_k8s_operator.Watchers.Guarantees.{no_watchers}

module _ {H : Type 0} where
  -- A removal registers nothing.
  pub registered-removed :
      (order : List String) (resource : String) (ws : Watchers H)
      → IsKeyed ws
      → (v r : String) → registered (remove_glidein_manager_watcher order resource ws) v r ≡ true
      → registered ws v r ≡ true
  unfolding remove_glidein_manager_watcher remove_handler
  registered-removed order resource ws K v r h =
      elim (Option-cases (find_poller order resource ws.active)) [
        | inl missing ↦ rw missing at h
        | inr ((url, poller), found) ↦
            let held = (find_poller-some order resource ws.active url poller found).0 in
            let e =
              registered-remove_handler ws resource url poller (K.url_lem url poller held) held v
                r in
            ground (arith, e, found)
      ]

  registered-cleared :
      (order : List String) (url resource : String) (ws : Watchers H)
      → IsKeyed ws
      → (v r : String) → registered (cleared order url resource ws) v r ≡ true
      → registered ws v r ≡ true
  unfolding cleared
  registered-cleared order url resource ws K v r h =
      elim (Option-cases (Dict.lookup url ws.active)) [
        | inl missing ↦ rw (missing, cleared) at h
        | inr (poller, held) ↦ elim (Bool-cases (has_update_handler_for_resource resource poller)) [
          | inl has ↦ rw (held, cleared, has) at h
          | inr lacks ↦ registered-removed order resource ws K v r (rw (held, cleared, lacks) at h)
        ]
      ]

  module _ (manager_of : String → String) where
    -- Each resource is registered with its own manager, if anywhere.
    pub record IsHome (ws : Watchers H) : Type 0 where
      pub keyed : IsKeyed ws
      pub home : (url n : String) → registered ws url n ≡ true → url ≡ manager_of n

    pub home-AtMostOne : (ws : Watchers H) (n : String) → IsHome ws → AtMostOne ws n
    home-AtMostOne ws n I u v at_u at_v = I.home u n at_u ∙ sym (I.home v n at_v)

    pub home_only :
        (ws : Watchers H) (url n : String)
        → IsHome ws
        → registered ws url n ≡ (url == manager_of n && registered ws (manager_of n) n)
    home_only ws url n I = elim (Bool-cases (url == manager_of n)) [
      | inl same ↦ rw (same, (eq_iff url (manager_of n)).0 same) refl
      | inr other ↦ rw other (ground (arith, I.home url n, eq_iff url (manager_of n)))
    ]

    pub moved-IsHome :
        (ws : Watchers H) (url : String) (poller : GlideinManagerPoller H)
        (found : Dict.lookup url ws.active ≡ some poller) (loops : Loops)
        (detached : List (GlideinManagerPoller H))
        → IsHome ws
        → IsHome (moved ws url poller found loops detached)
    moved-IsHome ws url poller found loops detached I = record {
      keyed = moved-IsKeyed ws url poller found loops detached I.keyed;
      home =
          λ v n at. I.home v n (sym (registered-moved ws url poller found loops detached v n) ∙ at);
    }

    pub detached-IsHome :
        (ws : Watchers H) (detached : List (GlideinManagerPoller H))
        → IsHome ws
        → IsHome (record ws { detached = detached })
    unfolding registered
    detached-IsHome ws detached I = record {
      keyed = record { url_lem = I.keyed.url_lem; used = I.keyed.used };
      home = I.home;
    }

    pub remove-IsHome :
        (order : List String) (resource : String) (ws : Watchers H)
        → IsHome ws
        → IsHome (remove_glidein_manager_watcher order resource ws)
    remove-IsHome order resource ws I = record {
      keyed = remove-IsKeyed order resource ws I.keyed;
      home = λ url n at. I.home url n (registered-removed order resource ws I.keyed url n at);
    }

    pub add-IsHome :
        (order : List String) (client_name url resource : String) (h : H) (ws : Watchers H)
        → url ≡ manager_of resource
        → IsHome ws
        → IsHome (add_watcher order client_name url resource h ws)
    add-IsHome order client_name url resource h ws own I = record {
      keyed = add-IsKeyed order client_name url resource h ws I.keyed;
      home = λ v n at.
          let was = registered-cleared order url resource ws I.keyed v n in
          let home = I.home v n in
          ground (
            arith,
            registered-add order client_name url resource h ws I.keyed v n,
            was,
            home,
            own,
            eq_iff url v,
            eq_iff resource n,
          );
    }

    pub no_watchers-IsHome : IsHome no_watchers
    unfolding registered Dict.lookup
    no_watchers-IsHome = record {
      keyed = record { url_lem = λ url poller h. cc; used = λ url poller h. cc };
      home = λ url n h. cc;
    }
