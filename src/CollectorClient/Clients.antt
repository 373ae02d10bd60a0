-- ===== src/CollectorClient/Clients.antt =====
-- The map collectorClients: what adding and removing a GlideinSet's client do to it.
use gmos_k8s_operator.Prelude.{
  String, ◌≡◌, refl, ap, ◌∙◌, eq_refl, Option, none, some, arith, ◌==◌, eq_iff, if◌then◌else◌, inl,
  inr, Option-cases, true, ◌∷◌,
}
use gmos_k8s_operator.Dict
use gmos_k8s_operator.Exec.{ok}
use gmos_k8s_operator.Types.{ObjectMeta}
use gmos_k8s_operator.ResourceName.{namespaced_name_for}
use gmos_k8s_operator.CollectorClient.{
  CollectorClient, CollectorClients, start_client, stopped_client, new_collector_client,
  add_collector_client, remove_collector_client,
}

module _ {H : Type 0} where
  -- The client of a GlideinSet after it was added: a new one that polls, or the old one with the new
  -- metadata and handler.
  abbrev pub added_client : ObjectMeta → H → Option (CollectorClient H) → CollectorClient H
  added_client resource handler none = start_client (new_collector_client resource handler)
  added_client resource handler (some old) = record old {
    resource = resource;
    update_handler = handler;
  }

  module _ (clients : CollectorClients H) where
    active-add :
        (resource : ObjectMeta) (handler : H)
        → (add_collector_client resource handler clients).active
          ≡ Dict.insert
              (namespaced_name_for resource)
              (added_client resource handler
                (Dict.lookup (namespaced_name_for resource) clients.active))
              clients.active
    unfolding add_collector_client
    active-add resource handler =
        elim (Option-cases (Dict.lookup (namespaced_name_for resource) clients.active)) [
          | inl missing ↦ rw (missing, add_collector_client)
          | inr (old, held) ↦ rw (held, add_collector_client)
        ]

    pub removed-add :
        (resource : ObjectMeta) (handler : H)
        → (add_collector_client resource handler clients).removed ≡ clients.removed
    unfolding add_collector_client
    removed-add resource handler =
        elim (Option-cases (Dict.lookup (namespaced_name_for resource) clients.active)) [
          | inl missing ↦ rw (missing, add_collector_client)
          | inr (old, held) ↦ rw (held, add_collector_client)
        ]

    pub lookup-add :
        (resource : ObjectMeta) (handler : H) (n : String)
        → Dict.lookup n (add_collector_client resource handler clients).active ≡ (
            if namespaced_name_for resource == n
            then some (
                added_client resource handler
                  (Dict.lookup (namespaced_name_for resource) clients.active))
            else Dict.lookup n clients.active)
    lookup-add resource handler n = rw (active-add resource handler) (
        Dict.lookup-insert n (namespaced_name_for resource)
          (added_client resource handler
            (Dict.lookup (namespaced_name_for resource) clients.active))
          clients.active)

    -- The client of a resource, if it has one, has a goroutine that can be told to end.
    abbrev pub HasGoroutine : ObjectMeta → Type 0
    HasGoroutine resource =
        (client : CollectorClient H)
        → Dict.lookup (namespaced_name_for resource) clients.active ≡ some client
        → client.loop.running ≡ true

    -- What a removal leaves that returns.
    abbrev pub left_by : ObjectMeta → Option (CollectorClient H) → CollectorClients H
    left_by resource none = clients
    left_by resource (some client) = record clients {
      active = Dict.erase (namespaced_name_for resource) clients.active;
      removed = stopped_client client ∷ clients.removed;
    }

    pub remove_lem :
        (resource : ObjectMeta)
        → HasGoroutine resource
        → remove_collector_client resource clients
          ≡ (ok tt, left_by resource (Dict.lookup (namespaced_name_for resource) clients.active))
    unfolding remove_collector_client
    remove_lem resource h =
        elim (Option-cases (Dict.lookup (namespaced_name_for resource) clients.active)) [
          | inl missing ↦ rw (remove_collector_client, missing) refl
          | inr (old, held) ↦ rw (remove_collector_client, held) (rw (h old held) refl)
        ]

    lookup-left_by :
        (resource : ObjectMeta) (n : String) (o : Option (CollectorClient H))
        → Dict.lookup (namespaced_name_for resource) clients.active ≡ o
        → Dict.lookup n (left_by resource o).active
          ≡ (if namespaced_name_for resource == n then none else Dict.lookup n clients.active)
    lookup-left_by resource n none missing = ground (arith, eq_iff (namespaced_name_for resource) n)
    lookup-left_by resource n (some client) held =
        Dict.lookup-erase n (namespaced_name_for resource) clients.active

    pub lookup-remove :
        (resource : ObjectMeta) (n : String)
        → HasGoroutine resource
        → Dict.lookup n (remove_collector_client resource clients).1.active
          ≡ (if namespaced_name_for resource == n then none else Dict.lookup n clients.active)
    lookup-remove resource n h = rw (remove_lem resource h) (lookup-left_by resource n _ refl)

  added_client_again :
      (resource : ObjectMeta) (handler : H) (o : Option (CollectorClient H))
      → added_client resource handler (some (added_client resource handler o))
        ≡ added_client resource handler o
  unfolding start_client new_collector_client
  added_client_again resource handler none = refl
  added_client_again resource handler (some old) = refl

  inserted : CollectorClient H → String → CollectorClients H → CollectorClients H
  inserted client n clients = record clients { active = Dict.insert n client clients.active }

  add_lem :
      (resource : ObjectMeta) (handler : H) (clients : CollectorClients H)
      → add_collector_client resource handler clients
        ≡ inserted
            (added_client resource handler
              (Dict.lookup (namespaced_name_for resource) clients.active))
            (namespaced_name_for resource)
            clients
  unfolding add_collector_client inserted
  add_lem resource handler clients =
      elim (Option-cases (Dict.lookup (namespaced_name_for resource) clients.active)) [
        | inl missing ↦ rw (missing, add_collector_client)
        | inr (old, held) ↦ rw (held, add_collector_client)
      ]

  -- A second call for the same resource with the same handler changes nothing.
  pub add_collector_client_again :
      (resource : ObjectMeta) (handler : H) (clients : CollectorClients H)
      → add_collector_client resource handler (add_collector_client resource handler clients)
        ≡ add_collector_client resource handler clients
  unfolding inserted
  add_collector_client_again resource handler clients =
      let n = namespaced_name_for resource in
      let c = added_client resource handler (Dict.lookup n clients.active) in
      rw (add_lem resource handler clients) (
        add_lem resource handler (inserted c n clients)
        ∙ rw (Dict.lookup-insert n n c clients.active, eq_refl n)
            (rw (added_client_again resource handler (Dict.lookup n clients.active))
              (ap (λ d. record clients { active = d }) (Dict.insert_again n c c clients.active))))
