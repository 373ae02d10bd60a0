-- ===== src/GlideinSets/Home.antt =====
-- The GlideinSet controller over a whole run in which no GlideinSet changes its manager.
use gmos_k8s_operator.Prelude.{
  String, ◌≡◌, refl, ◌==◌, ◌&&◌, not, inl, inr, Option-cases, Option, none, some, true, false, List,
}
use mathlib.Core.Path.{subst}
use gmos_k8s_operator.Dict
use gmos_k8s_operator.GlideinSets.Sound.{IsSound}
use gmos_k8s_operator.Exec.{modify, ◌>>=◌}
use gmos_k8s_operator.Keeps.{Keeps}
use gmos_k8s_operator.Types.{K8s, Secret, GlideinSet}
use gmos_k8s_operator.ResourceName.{namespaced_name_for}
use gmos_k8s_operator.Kube.{Kube}
use gmos_k8s_operator.Host.{Host}
use gmos_k8s_operator.Template.{Engine}
use gmos_k8s_operator.Watchers.{add_glidein_manager_watcher}
use gmos_k8s_operator.Watchers.Registered.{registered}
use gmos_k8s_operator.Watchers.Removal.{visits, registered-remove}
use gmos_k8s_operator.Watchers.Home.{
  IsHome, add-IsHome, remove-IsHome, moved-IsHome, detached-IsHome, home-AtMostOne, home_only,
  no_watchers-IsHome,
}
use gmos_k8s_operator.GlideinSets.{
  Operator, on_watchers, on_clients, add_watchers, finalize_glidein_set,
}
use gmos_k8s_operator.GlideinSets.Kept.{IsServed, reconcile_glidein_set-Keeps}
use gmos_k8s_operator.GlideinSets.Reachable.{
  Reached-Sound, Reached, started, next, reconciled, cluster_changed, poller_moved, detached_moved,
  client_ended,
}

module _ {k : K8s} (kube : Kube k) (manager_of : String → String) where
  abbrev pub HasOwnManager : GlideinSet k → Type 0
  HasOwnManager g = g.spec.glidein_manager_url ≡ manager_of (namespaced_name_for g.meta)

  module _ (host : Host) (new_secret : Secret) (engine : Engine k kube.Object)
      (deployment_yaml data_secret_yaml : String) (env : Option String)
      (served : IsServed kube HasOwnManager) where
    abbrev Home : Operator kube.Cluster → Type 0
    Home o = IsHome manager_of o.watchers

    module _ (order : List String) where
      add_watchers-Keeps :
          (g : GlideinSet k)
          → HasOwnManager g
          → Keeps Home (
              add_watchers kube host new_secret engine deployment_yaml data_secret_yaml env order g)
      unfolding add_watchers on_watchers on_clients add_glidein_manager_watcher modify ◌>>=◌
      add_watchers-Keeps g own o I = by_env env
        where
          by_env :
              (name : Option String)
              → Home
                  (add_watchers kube host new_secret engine deployment_yaml data_secret_yaml name
                    order g o).1
          by_env none = I
          by_env (some client_name) =
              add-IsHome manager_of order client_name g.spec.glidein_manager_url
                (namespaced_name_for g.meta) _ o.watchers own I

      finalize-Keeps :
          (g : GlideinSet k)
          → Keeps Home (
              finalize_glidein_set kube host new_secret engine deployment_yaml data_secret_yaml env
                order g)
      unfolding finalize_glidein_set on_watchers on_clients modify ◌>>=◌
      finalize-Keeps g o I =
          remove-IsHome manager_of order (namespaced_name_for g.meta) o.watchers I

    Reached-IsHome :
        {w : kube.Cluster} {o : Operator kube.Cluster}
        → Reached kube host new_secret engine deployment_yaml data_secret_yaml env w o
        → IsHome manager_of o.watchers
    Reached-IsHome started = no_watchers-IsHome manager_of
    Reached-IsHome (next before (reconciled order req o)) =
        reconcile_glidein_set-Keeps kube host new_secret engine deployment_yaml data_secret_yaml env
          order Home (λ o w i. i) HasOwnManager served (add_watchers-Keeps order)
          (finalize-Keeps order) req o (Reached-IsHome before)
    Reached-IsHome (next before (cluster_changed w o)) = Reached-IsHome before
    Reached-IsHome (next before (poller_moved url poller loops detached o found)) =
        moved-IsHome manager_of o.watchers url poller found loops detached (Reached-IsHome before)
    Reached-IsHome (next before (detached_moved detached o)) =
        detached-IsHome manager_of o.watchers detached (Reached-IsHome before)
    Reached-IsHome (next before (client_ended n client loop o held step)) = Reached-IsHome before

    client-home :
        (o : Operator kube.Cluster) (n : String)
        → IsHome manager_of o.watchers
        → IsSound o.watchers o.collector_clients
        → (Dict.has_key n o.collector_clients.active
            && not (registered o.watchers (manager_of n) n))
          ≡ false
    unfolding Dict.has_key
    client-home o n I S = elim (Option-cases (Dict.lookup n o.collector_clients.active)) [
      | inl missing ↦ rw (Dict.has_key, missing) refl
      | inr (client, held) ↦
          let (url, at) = S.watched n client held in
          rw
            (Dict.has_key, held, subst (λ u. registered o.watchers u n ≡ true) (I.home url n at) at)
            refl
    ]

    -- Where every GlideinSet that the cluster has or stores has the manager that belongs to its name:
    -- in every state that the operator reaches from its start, however reconciliations end, a
    -- GlideinSet is registered with its own manager or with none, and it is registered there if it
    -- has a collector client. To finalize a GlideinSet then takes its registration away and
    -- changes no other, if the visits of the pollers reach its manager.
    pub Reached-home :
        {w : kube.Cluster} {o : Operator kube.Cluster}
        → Reached kube host new_secret engine deployment_yaml data_secret_yaml env w o
        → (order : List String) (g : GlideinSet k) (url n : String)
        → visits order (manager_of (namespaced_name_for g.meta)) ≡ true
        → (registered o.watchers url n
            ≡ (url == manager_of n && registered o.watchers (manager_of n) n))
          × ((Dict.has_key n o.collector_clients.active
                && not (registered o.watchers (manager_of n) n))
              ≡ false)
          × (registered
                (finalize_glidein_set kube host new_secret engine deployment_yaml data_secret_yaml
                  env order g o).1.watchers
                url
                n
              ≡ (registered o.watchers url n && not (namespaced_name_for g.meta == n)))
    unfolding finalize_glidein_set on_watchers on_clients modify ◌>>=◌
    Reached-home {o = o} reached order g url n visited =
        let I = Reached-IsHome reached in
        let S =
          Reached-Sound kube host new_secret engine deployment_yaml data_secret_yaml env reached in
        (
          home_only manager_of o.watchers url n I,
          client-home o n I S,
          registered-remove order (namespaced_name_for g.meta) o.watchers I.keyed
              (λ u at. rw (I.home u (namespaced_name_for g.meta) at) visited)
              (home-AtMostOne manager_of o.watchers (namespaced_name_for g.meta) I) url n,
        )
