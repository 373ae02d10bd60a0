-- ===== src/Watchers/Moved.antt =====
-- The goroutines of a poller, and the one that starts it, change its loops and nothing else of it.
use gmos_k8s_operator.Prelude.{
  String, ◌≡◌, refl, sym, ap, ◌∙◌, some, List, ◌==◌, eq_iff, inl, inr, Bool-cases,
}
use gmos_k8s_operator.Dict
use gmos_k8s_operator.Poller.{Loops, GlideinManagerPoller, has_update_handler_for_resource}
use gmos_k8s_operator.Watchers.{Watchers}
use gmos_k8s_operator.Watchers.Registered.{IsKeyed, registered}

module _ {H : Type 0} (ws : Watchers H) (url : String) (poller : GlideinManagerPoller H)
    (found : Dict.lookup url ws.active ≡ some poller) (loops : Loops)
    (detached : List (GlideinManagerPoller H)) where
  -- The pollers in the map after the loops of one changed, and those that were taken out of it after
  -- any of theirs did.
  abbrev pub moved : Watchers H
  moved = record {
    active = Dict.insert url (record poller { loops = loops }) ws.active;
    detached = detached;
  }

  pub registered-moved :
      (v resource : String) → registered moved v resource ≡ registered ws v resource
  unfolding registered has_update_handler_for_resource
  registered-moved v resource =
      rw (Dict.lookup-insert v url (record poller { loops = loops }) ws.active)
        (elim (Bool-cases (url == v)) [
          | inl same ↦ rw (same, ← (eq_iff url v).0 same, found) refl
          | inr other ↦ rw other refl
        ])

  -- A poller of the map differs from the one before in its loops at most.
  was :
      (v : String) (p : GlideinManagerPoller H)
      → Dict.lookup v moved.active ≡ some p
      → (q : GlideinManagerPoller H) × (Dict.lookup v ws.active ≡ some q)
        × (p.manager_url ≡ q.manager_url)
        × (p.update_handlers ≡ q.update_handlers)
  was v p h = elim (Bool-cases (url == v)) [
    | inl same ↦
        let e : some (record poller { loops = loops }) ≡ some p =
          rw (Dict.lookup-insert v url (record poller { loops = loops }) ws.active, same) at h in
        (poller, ap (λ u. Dict.lookup u ws.active) (sym ((eq_iff url v).0 same)) ∙ found, cc, cc)
    | inr other ↦ (
      p,
      rw (Dict.lookup-insert v url (record poller { loops = loops }) ws.active, other) at h,
      refl,
      refl,
    )
  ]

  pub moved-IsKeyed : IsKeyed ws → IsKeyed moved
  moved-IsKeyed K = record {
    url_lem = λ v p h. let (q, there, urls, _) = was v p h in urls ∙ K.url_lem v q there;
    used = λ v p h.
        let (q, there, _, handlers) = was v p h in ap Dict.is_empty handlers ∙ K.used v q there;
  }
