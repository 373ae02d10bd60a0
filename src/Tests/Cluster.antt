-- ===== src/Tests/Cluster.antt =====
-- A collection of one GlideinSet, in a cluster that holds another one which it no longer lists.
use gmos_k8s_operator.Prelude.{String, ◌≡◌, refl, ap, Option, none, some, List, [], ◌∷◌, ◌++◌}
use gmos_k8s_operator.Types.{
  pos, K8s, ObjectMeta, NamespacedName, Secret, GlideinSet, GlideinSetSpec, GlideinSetCollection,
}
use gmos_k8s_operator.Exec.{message, ok, err, for_each}
use gmos_k8s_operator.Kube.{Api, HasMeta, FinalizerApi, Kube, glidein_set_meta}
use gmos_k8s_operator.Kube.Quiet.{IsListing, key_of, has_key}
use gmos_k8s_operator.Collection.{apply_glidein_set, recoincile_glidein_sets}
use gmos_k8s_operator.Collection.Wanted.{last_entry}
use gmos_k8s_operator.Collection.Converge.{settled, recoincile_glidein_sets-converges}
use gmos_k8s_operator.Reconcile.Finalizer.{listed, without, IsFinalizerApi}
use gmos_k8s_operator.Tests.Memory.{
  Memory, memory_store, memory_api, memory-IsMetaApi, memory-IsQuiet, is_not_found,
}

abbrev pub plain : K8s
plain = record { ResourceRequirements = String; Toleration = String; VolumeSource = String }

abbrev pub no_meta : ObjectMeta
no_meta = record {
  name = "";
  namespace = "";
  labels = none;
  finalizers = [];
  deletion_timestamp = none;
  controller = none;
}

abbrev pub osg : String → ObjectMeta
osg name = record no_meta { name = name; namespace = "osg" }

abbrev pub entry : String → GlideinSetSpec plain
entry name = record {
  name = name;
  size = pos 2;
  glidein_manager_url = "";
  local_collector_url = "";
  resources = "";
  priority_class_name = "";
  node_selector = none;
  tolerations = [];
}

abbrev pub glidein_set : ObjectMeta → String → GlideinSet plain
glidein_set m name = record { meta = m; spec = entry name; remote_manifest = none }

abbrev collection_of : ObjectMeta → List (GlideinSetSpec plain) → GlideinSetCollection plain
collection_of m specs = record {
  meta = m;
  spec = record {
    glidein_manager_url = "https://gm.example.org";
    prometheus = record { service_account = "monitor"; storage_volume = none };
    glidein_sets = specs;
  };
}

abbrev pub finalizer_api : FinalizerApi
finalizer_api = record {
  contains_finalizer = λ f m. listed f m.finalizers;
  add_finalizer = λ f m. record m { finalizers = m.finalizers ++ (f ∷ []) };
  remove_finalizer = λ f m. record m { finalizers = without f m.finalizers };
}

pub finalizer_api-IsFinalizerApi : IsFinalizerApi finalizer_api
finalizer_api-IsFinalizerApi = record {
  contains_lem = λ f m. refl;
  add_lem = λ f m h. refl;
  remove_lem = λ f m. refl;
}

abbrev pub sets : HasMeta (GlideinSet plain)
sets = glidein_set_meta plain

abbrev pub old_key : NamespacedName
old_key = record { namespace = "osg"; name = "pilots-old" }

-- The one GlideinSet that the label selects, if it is there.
abbrev pub listing : Memory sets → List (GlideinSet plain)
listing w = elim ((memory_store sets).find w old_key) [ none ↦ [] | some g ↦ g ∷ [] ]

-- Objects of the other types, of which the cluster forgets what it is sent.
abbrev closed : {T : Type 0} → Api (Memory sets) T
closed = record {
  get = λ n c. (err (message "NotFound"), c);
  create = λ c. (ok tt, c);
  update = λ c. (err (message "Forbidden"), c);
  delete = λ c. (err (message "Forbidden"), c);
  set_controller_reference = λ owner t. (ok tt, t);
  get_name = λ t. "";
  set_name = λ n t. t;
  set_namespace = λ n t. t;
}

abbrev pub kube : Kube plain
kube = record {
  Cluster = Memory sets;
  Object = Secret;
  is_not_found = is_not_found;
  finalizers = finalizer_api;
  collections = closed;
  glidein_sets = memory_api sets;
  secrets = closed;
  objects = closed;
  list_glidein_sets = λ namespace labels c. (ok tt, record c { resource = listing c.world });
  new_collection = collection_of no_meta [];
  new_glidein_set = glidein_set no_meta "";
  read_random = λ n w. (ok [], w);
}

pub IsListing-found :
    (w : Memory sets) (o : Option (GlideinSet plain))
    → (memory_store sets).find w old_key ≡ o
    → IsListing sets (memory_store sets) w "osg" (elim o [ none ↦ [] | some g ↦ g ∷ [] ])
IsListing-found w none h = tt
IsListing-found w (some g) h =
    let key : key_of g.meta ≡ old_key = (memory-IsQuiet sets).key-find old_key w g h in
    (rw key h, ap (λ (m : NamespacedName). m.namespace) key, refl, tt)

abbrev pub old_set : GlideinSet plain
old_set = glidein_set (osg "pilots-old") "old"

abbrev pub pilots : GlideinSetCollection plain
pilots = collection_of (osg "pilots") (entry "new" ∷ [])

abbrev pub before : Memory sets
before = (memory_store sets).put (λ n. none) old_set

recoincile_glidein_sets-converges_example :
    ((recoincile_glidein_sets kube pilots before).0 ≡ ok tt)
    × ((n : NamespacedName)
        → (memory_store sets).find (recoincile_glidein_sets kube pilots before).1 n
          ≡ settled
              (memory_store sets).doomed
              kube.new_glidein_set
              pilots
              (last_entry pilots n pilots.spec.glidein_sets)
              (has_key sets n (
                listing
                  (for_each pilots.spec.glidein_sets (apply_glidein_set kube pilots) before).1))
              ((memory_store sets).find before n))
recoincile_glidein_sets-converges_example =
    recoincile_glidein_sets-converges kube (memory_store sets) (memory-IsQuiet sets) pilots
      (memory-IsMetaApi sets λ m g. refl)
      (record { name_lem = refl; controller_lem = refl; deletion_timestamp_lem = refl }) (λ g. refl)
      listing (λ w. refl) (λ w. IsListing-found w ((memory_store sets).find w old_key) refl) before
