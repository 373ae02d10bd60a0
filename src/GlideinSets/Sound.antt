-- ===== src/GlideinSets/Sound.antt =====
-- The invariant of the watchers and the collector clients together.
use gmos_k8s_operator.Prelude.{
  String, ◌≡◌, ◌∙◌, some, true, List, ◌==◌, eq_iff, inl, inr, Bool-cases,
}
use mathlib.Core.Path.{subst}
use gmos_k8s_operator.Dict
use gmos_k8s_operator.Types.{ObjectMeta}
use gmos_k8s_operator.ResourceName.{namespaced_name_for}
use gmos_k8s_operator.Watchers.{Watchers, add_watcher, remove_glidein_manager_watcher}
use gmos_k8s_operator.Watchers.Registered.{IsKeyed, registered}
use gmos_k8s_operator.Poller.{Loops, GlideinManagerPoller}
use gmos_k8s_operator.Watchers.Moved.{moved, moved-IsKeyed, registered-moved}
use gmos_k8s_operator.Watchers.Keyed.{add-IsKeyed, remove-IsKeyed}
use gmos_k8s_operator.Watchers.Guarantees.{no_watchers, registered_at_url}
use gmos_k8s_operator.Watchers.Others.{registered-remove_other, registered-add_other}
use gmos_k8s_operator.CollectorClient.{
  CollectorClient, CollectorClients, add_collector_client, remove_collector_client,
}
use gmos_k8s_operator.CollectorClient.Clients.{lookup-add, lookup-remove}
use gmos_k8s_operator.CollectorClient.Running.{
  IsPolled, Polls-HasGoroutine, no_clients, no_clients-IsPolled, add-IsPolled, remove-IsPolled,
}

module _ {H G : Type 0} where
  -- The pollers are keyed by URL, the collector clients in the map poll and the others ended, and every GlideinSet with a client is registered with a manager.
  pub record IsSound (ws : Watchers H) (clients : CollectorClients G) : Type 0 where
    pub keyed : IsKeyed ws
    pub polled : IsPolled clients
    pub watched :
        (n : String) (client : CollectorClient G)
        → Dict.lookup n clients.active ≡ some client
        → (url : String) × (registered ws url n ≡ true)

  module _ (order : List String) (m : ObjectMeta) (ws : Watchers H) (clients : CollectorClients G)
      (I : IsSound ws clients) where
    pub IsSound-remove :
        IsSound
          (remove_glidein_manager_watcher order (namespaced_name_for m) ws)
          (remove_collector_client m clients).1
    IsSound-remove =
        let polled = Polls-HasGoroutine m clients I.polled in
        record {
          keyed = remove-IsKeyed order (namespaced_name_for m) ws I.keyed;
          polled = remove-IsPolled m clients I.polled;
          watched = λ n client held. elim (Bool-cases (namespaced_name_for m == n)) [
            | inl same ↦ absurd (cc (rw (lookup-remove clients m n polled, same) at held))
            | inr other ↦
                let (url, there) =
                  I.watched n client (rw (lookup-remove clients m n polled, other) at held) in
                (
                  url,
                  registered-remove_other order (namespaced_name_for m) n other ws I.keyed url
                      ∙ there,
                )
          ];
        }

    pub IsSound-add :
        (client_name url : String) (h : H) (handler : G)
        → IsSound
            (add_watcher order client_name url (namespaced_name_for m) h ws)
            (add_collector_client m handler clients)
    IsSound-add client_name url h handler = record {
      keyed = add-IsKeyed order client_name url (namespaced_name_for m) h ws I.keyed;
      polled = add-IsPolled m clients I.polled handler;
      watched = λ n client held. elim (Bool-cases (namespaced_name_for m == n)) [
        | inl same ↦ (
          url,
          subst
              (λ r.
                registered (add_watcher order client_name url (namespaced_name_for m) h ws) url r
                ≡ true)
              ((eq_iff (namespaced_name_for m) n).0 same)
              (registered_at_url order client_name url (namespaced_name_for m) h ws I.keyed),
        )
        | inr other ↦
            let (v, there) =
              I.watched n client (rw (lookup-add clients m handler n, other) at held) in
            (
              v,
              registered-add_other order (namespaced_name_for m) n other ws I.keyed client_name url
                    h v
                  ∙ there,
            )
      ];
    }

  module _ (ws : Watchers H) (clients : CollectorClients G) (I : IsSound ws clients) where
    pub IsSound-moved :
        (url : String) (poller : GlideinManagerPoller H)
        (found : Dict.lookup url ws.active ≡ some poller) (loops : Loops)
        (detached : List (GlideinManagerPoller H))
        → IsSound (moved ws url poller found loops detached) clients
    IsSound-moved url poller found loops detached = record {
      keyed = moved-IsKeyed ws url poller found loops detached I.keyed;
      polled = I.polled;
      watched = λ n client held.
          let (v, there) = I.watched n client held in
          (v, registered-moved ws url poller found loops detached v n ∙ there);
    }

    pub IsSound-detached :
        (detached : List (GlideinManagerPoller H))
        → IsSound (record ws { detached = detached }) clients
    unfolding registered
    IsSound-detached detached = record {
      keyed = record { url_lem = I.keyed.url_lem; used = I.keyed.used };
      polled = I.polled;
      watched = I.watched;
    }

  pub start-IsSound : IsSound no_watchers no_clients
  unfolding Dict.lookup
  start-IsSound = record {
    keyed = record { url_lem = λ url poller h. cc; used = λ url poller h. cc };
    polled = no_clients-IsPolled;
    watched = λ n client held. cc;
  }
