-- ===== src/Tests/Home.antt =====
-- A cluster that gives each GlideinSet the manager of its name, and an operator that reconciled one.
use gmos_k8s_operator.Prelude.{
  String, ◌≡◌, refl, none, some, false, ◌&&◌, not, [], ◌∷◌, ◌<>◌, ◌==◌, Option,
}
use gmos_k8s_operator.Dict
use gmos_k8s_operator.Exec.{message, ok, err, Result, Cell}
use gmos_k8s_operator.Types.{GlideinSet}
use gmos_k8s_operator.ResourceName.{namespaced_name_for}
use gmos_k8s_operator.Kube.{Api, Kube}
use gmos_k8s_operator.Kube.Quiet.{key_of}
use gmos_k8s_operator.Watchers.Registered.{registered}
use gmos_k8s_operator.GlideinSets.{Operator, finalize_glidein_set, reconcile_glidein_set}
use gmos_k8s_operator.GlideinSets.Kept.{IsServed}
use gmos_k8s_operator.GlideinSets.Reachable.{Reached, started, next, reconciled, cluster_changed}
use gmos_k8s_operator.GlideinSets.Home.{HasOwnManager, Reached-home}
use gmos_k8s_operator.Tests.Memory.{Memory, memory_store, memory_api}
use gmos_k8s_operator.Tests.Cluster.{plain, sets, kube, before, old_key, old_set}
use gmos_k8s_operator.Tests.Controllers.{host, no_secret, engine, operator}

abbrev manager_of : String → String
manager_of n = "https://" <> n

abbrev assigned : GlideinSet plain → GlideinSet plain
assigned g = record g {
  spec = record g.spec { glidein_manager_url = manager_of (namespaced_name_for g.meta) };
}

abbrev Sets : Type 0
Sets = Cell (GlideinSet plain) (Memory sets)

abbrev answer : Option (GlideinSet plain) → Sets → Result (Unit {0}) × Sets
answer none c = (err (message "NotFound"), c)
answer (some g) c = (ok tt, record c { resource = assigned g })

abbrev store : Option (GlideinSet plain) → Sets → Result (Unit {0}) × Sets
store none c = (err (message "NotFound"), c)
store (some g) c = (ok tt, record c { world = (memory_store sets).put c.world c.resource })

abbrev assigning_api : Api (Memory sets) (GlideinSet plain)
assigning_api = record (memory_api sets) {
  get = λ n c. answer ((memory_store sets).find c.world n) c;
  update = λ c. store ((memory_store sets).find c.world (key_of c.resource.meta)) c;
}

abbrev assigning : Kube plain
assigning = record kube { glidein_sets = assigning_api }

answered-HasOwnManager :
    (o : Option (GlideinSet plain)) (c : Sets)
    → (answer o c).0 ≡ ok tt
    → HasOwnManager assigning manager_of (answer o c).1.resource
answered-HasOwnManager none c e = cc
answered-HasOwnManager (some g) c e = refl

stored-HasOwnManager :
    (o : Option (GlideinSet plain)) (c : Sets)
    → HasOwnManager assigning manager_of c.resource
    → HasOwnManager assigning manager_of (store o c).1.resource
stored-HasOwnManager none c own = own
stored-HasOwnManager (some g) c own = own

assigning-IsServed : IsServed assigning (HasOwnManager assigning manager_of)
unfolding namespaced_name_for
assigning-IsServed = record {
  get_lem = λ n c e. answered-HasOwnManager ((memory_store sets).find c.world n) c e;
  add_finalizer_lem = λ g own. own;
  update_lem = λ c own e.
      stored-HasOwnManager ((memory_store sets).find c.world (key_of c.resource.meta)) c own;
}

abbrev once_reconciled : Operator (Memory sets)
once_reconciled =
    (reconcile_glidein_set assigning host no_secret engine "kind: Deployment" "kind: Secret"
      (some "k8s") [] old_key operator).1

once-Reached :
    Reached assigning host no_secret engine "kind: Deployment" "kind: Secret"
      (some "k8s")
      (λ n. none)
      once_reconciled
once-Reached = next (next started (cluster_changed before _)) (reconciled [] old_key operator)

Reached-home_example :
    (registered once_reconciled.watchers "https://osg/pilots-old" "osg/pilots-old" ≡ (
      "https://osg/pilots-old" == manager_of "osg/pilots-old"
      && registered once_reconciled.watchers (manager_of "osg/pilots-old") "osg/pilots-old"))
    × ((Dict.has_key "osg/pilots-old" once_reconciled.collector_clients.active
          && not
              (registered once_reconciled.watchers (manager_of "osg/pilots-old") "osg/pilots-old"))
        ≡ false)
    × (registered
          (finalize_glidein_set assigning host no_secret engine "kind: Deployment" "kind: Secret"
            (some "k8s")
            (manager_of "osg/pilots-old" ∷ [])
            old_set
            once_reconciled).1.watchers
          "https://osg/pilots-old"
          "osg/pilots-old"
        ≡ (registered once_reconciled.watchers "https://osg/pilots-old" "osg/pilots-old"
            && not (namespaced_name_for old_set.meta == "osg/pilots-old")))
unfolding namespaced_name_for
Reached-home_example =
    Reached-home assigning manager_of host no_secret engine "kind: Deployment" "kind: Secret"
      (some "k8s") assigning-IsServed once-Reached (manager_of "osg/pilots-old" ∷ []) old_set
      "https://osg/pilots-old" "osg/pilots-old" refl
