-- ===== src/Tests/Reconciled.antt =====
-- A collection with its collector, whose monitoring is made and whose GlideinSets change.
use gmos_k8s_operator.Prelude.{String, ◌≡◌, refl, none, List, [], ◌∷◌, true, false}
use gmos_k8s_operator.Exec.{ok, for_each}
use gmos_k8s_operator.Types.{Bytes, Secret, GlideinSet, GlideinSetCollection, NamespacedName}
use gmos_k8s_operator.Kube.{HasMeta, Kube, secret_meta, collection_meta}
use gmos_k8s_operator.Kube.Quiet.{Store, IsListing, has_key}
use gmos_k8s_operator.ApiUtil.{resolved_name}
use gmos_k8s_operator.Reconcile.{pilot_set_finalizer}
use gmos_k8s_operator.Template.{
  WalkEntry, read_manifests_from_fs, get_initial_resource_value, new_editor, monitoring,
}
use gmos_k8s_operator.Template.Upserts.{Rendered, no_templates, template, made_of}
use gmos_k8s_operator.Collection.{
  apply_glidein_set, create_monitoring_for_pilot_set, reconcile_collection,
}
use gmos_k8s_operator.Collection.Wanted.{last_entry}
use gmos_k8s_operator.Collection.Collector.{AllExist, collector_data}
use gmos_k8s_operator.Collection.Converge.{settled}
use gmos_k8s_operator.Collection.Whole.{IsQuietCluster, reconcile_collection-converges}
use gmos_k8s_operator.Tests.Memory.{
  Memory, memory_store, memory_api, memory-IsMetaApi, memory-IsQuiet,
}
use gmos_k8s_operator.Tests.Cluster.{
  plain, osg, kube, sets, old_key, old_set, listing, IsListing-found, entry,
  finalizer_api-IsFinalizerApi,
}
use gmos_k8s_operator.Tests.Objects.{
  Object, Objects, object_meta, kind_of, object_api, object_store, object-IsMetaApi,
  object-IsQuietKinds,
}
use gmos_k8s_operator.Tests.Part.{
  Part, part_api, part_store, part-IsMetaApi, part-IsQuiet, part-IsQuietKinds,
}
use gmos_k8s_operator.Tests.Templates.{
  filling, object_of, render_text, rendered, rendered-RendersIn,
}

abbrev collections : HasMeta (GlideinSetCollection plain)
collections = collection_meta plain

-- The collections, the GlideinSets, the secrets and the other objects.
abbrev pub Whole : Type 0
Whole = Memory collections × Memory sets × Memory secret_meta × Objects

abbrev of_collections : Part Whole (Memory collections)
of_collections = record {
  get_part = λ v. v.0;
  set_part = λ w v. (w, v.1, v.2, v.3);
  get-set = λ w v. refl;
  set-get = λ v. refl;
}

abbrev pub of_sets : Part Whole (Memory sets)
of_sets = record {
  get_part = λ v. v.1;
  set_part = λ w v. (v.0, w, v.2, v.3);
  get-set = λ w v. refl;
  set-get = λ v. refl;
}

abbrev pub of_secrets : Part Whole (Memory secret_meta)
of_secrets = record {
  get_part = λ v. v.2;
  set_part = λ w v. (v.0, v.1, w, v.3);
  get-set = λ w v. refl;
  set-get = λ v. refl;
}

abbrev pub of_objects : Part Whole Objects
of_objects = record {
  get_part = λ v. v.3;
  set_part = λ w v. (v.0, v.1, v.2, w);
  get-set = λ w v. refl;
  set-get = λ v. refl;
}

abbrev pub whole : Kube plain
whole = record {
  Cluster = Whole;
  Object = Object;
  is_not_found = kube.is_not_found;
  finalizers = kube.finalizers;
  collections = part_api of_collections (memory_api collections);
  glidein_sets = part_api of_sets (memory_api sets);
  secrets = part_api of_secrets (memory_api secret_meta);
  objects = part_api of_objects object_api;
  list_glidein_sets = λ namespace labels c. (ok tt, record c { resource = listing c.world.1 });
  new_collection = kube.new_collection;
  new_glidein_set = kube.new_glidein_set;
  read_random = λ n w. (ok [], w);
}

abbrev pub manifests : String → String → List WalkEntry
manifests first second =
    record { error = none; is_dir = true; content = ok "" }
    ∷ record { error = none; is_dir = false; content = ok first }
    ∷ record { error = none; is_dir = false; content = ok second }
    ∷ []

pub manifests_read :
    (first second : String)
    → read_manifests_from_fs (manifests first second) ≡ ok (first ∷ second ∷ [])
unfolding read_manifests_from_fs
manifests_read first second = refl

abbrev pub collector_manifests : List WalkEntry
collector_manifests = manifests "collector-deployment.yaml" "collector-service.yaml"

abbrev pub monitoring_manifests : List WalkEntry
monitoring_manifests = manifests "prometheus-deployment.yaml" "prometheus-service.yaml"

abbrev collection_store : Store Whole (GlideinSetCollection plain)
collection_store = part_store of_collections (memory_store collections)

abbrev pub set_store : Store Whole (GlideinSet plain)
set_store = part_store of_sets (memory_store sets)

abbrev pub secret_store : Store Whole Secret
secret_store = part_store of_secrets (memory_store secret_meta)

abbrev pub object_stores : String → Store Whole Object
object_stores kind = part_store of_objects (object_store kind)

abbrev pub whole-IsQuietCluster :
    IsQuietCluster whole filling collector_manifests monitoring_manifests object_meta
      collection_store kind_of object_stores set_store
whole-IsQuietCluster = record {
  collections-IsQuiet = part-IsQuiet of_collections (memory-IsQuiet collections);
  collections-IsMetaApi = part-IsMetaApi of_collections (memory-IsMetaApi collections λ m c. refl);
  stored-collection = λ c. refl;
  finalizers-IsFinalizerApi = finalizer_api-IsFinalizerApi;
  objects-IsMetaApi = part-IsMetaApi of_objects object-IsMetaApi;
  objects-IsQuiet = part-IsQuietKinds of_objects object-IsQuietKinds;
  sets-IsMetaApi = part-IsMetaApi of_sets (memory-IsMetaApi sets λ m g. refl);
  sets-IsQuiet = part-IsQuiet of_sets (memory-IsQuiet sets);
  stored-set = λ g. refl;
  set-put_object = λ w kind obj n. refl;
  object-put_set = λ w g kind n. refl;
  object-drop_set = λ w m kind n. refl;
}

abbrev pub pilot_set : GlideinSetCollection plain
pilot_set = record kube.new_collection {
  meta = record (osg "pilots-old") { finalizers = pilot_set_finalizer ∷ [] };
  spec = record kube.new_collection.spec { glidein_sets = entry "new" ∷ [] };
}

-- An object of the collector, as it was created.
abbrev pub collector_object : String → Object
collector_object yaml = record (object_of (render_text yaml)) { meta = osg "pilots-old-collector" }

-- The collector's Deployment and Service, of one name; a GlideinSet of the namespace that no entry names; the collection.
abbrev pub started : Whole
started = (
  (memory_store collections).put (λ n. none) pilot_set,
  (memory_store sets).put (λ n. none) old_set,
  λ n. none,
  (object_store "Deployment").put
      ((object_store "Service").put (λ kind n. none) (collector_object "collector-service.yaml"))
      (collector_object "collector-deployment.yaml"),
)

pub collector_there :
    (bytes : Bytes)
    → AllExist filling object_meta whole.objects whole.is_not_found kind_of object_stores
        whole-IsQuietCluster.objects-IsQuiet
        (record { resource = pilot_set.meta })
        started
        (collector_data whole filling object_meta kind_of object_stores
          whole-IsQuietCluster.objects-IsQuiet collector_manifests monitoring_manifests pilot_set
          bytes)
        ("collector-deployment.yaml" ∷ "collector-service.yaml" ∷ [])
unfolding get_initial_resource_value resolved_name new_editor
collector_there bytes =
    let deployment = collector_object "collector-deployment.yaml" in
    let service = collector_object "collector-service.yaml" in
    (
      (object_of (render_text "collector-deployment.yaml"), deployment, refl, refl),
      ((object_of (render_text "collector-service.yaml"), service, refl, refl), tt),
    )

abbrev listing_of : Whole → List (GlideinSet plain)
listing_of w = listing w.1

listed : (w : Whole) → IsListing sets set_store w "osg" (listing_of w)
listed w = IsListing-found w.1 ((memory_store sets).find w.1 old_key) refl

abbrev result : Whole
result =
    (reconcile_collection whole filling collector_manifests monitoring_manifests old_key started).1

-- The cluster once the monitoring and the entries of the spec were seen to.
abbrev after_entries : Whole
after_entries =
    (for_each pilot_set.spec.glidein_sets (apply_glidein_set whole pilot_set)
      (create_monitoring_for_pilot_set whole filling collector_manifests monitoring_manifests
        pilot_set started).1).1

-- The Deployment and the Service of the monitoring have one name.
abbrev made : List (Rendered Object)
made = rendered "prometheus-deployment.yaml" ∷ rendered "prometheus-service.yaml" ∷ []

reconcile_collection-converges_example :
    ((reconcile_collection whole filling collector_manifests monitoring_manifests old_key started).0
      ≡ ok tt)
    × ((n : NamespacedName)
        → set_store.find result n
          ≡ settled set_store.doomed whole.new_glidein_set pilot_set
              (last_entry pilot_set n pilot_set.spec.glidein_sets)
              (has_key sets n (listing_of after_entries))
              (set_store.find started n))
    × ((kind : String) (n : NamespacedName)
        → (object_stores kind).find result n
          ≡ made_of filling object_meta whole.objects whole.is_not_found kind_of object_stores
              whole-IsQuietCluster.objects-IsMetaApi whole-IsQuietCluster.objects-IsQuiet
              (record { resource = pilot_set.meta })
              made
              kind
              n
              ((object_stores kind).find started n))
reconcile_collection-converges_example =
    reconcile_collection-converges whole filling collector_manifests monitoring_manifests
      object_meta collection_store kind_of object_stores set_store whole-IsQuietCluster
      (record { name_lem = refl; controller_lem = refl; deletion_timestamp_lem = refl }) pilot_set
      listing_of (λ w. refl) listed ("collector-deployment.yaml" ∷ "collector-service.yaml" ∷ [])
      ("prometheus-deployment.yaml" ∷ "prometheus-service.yaml" ∷ []) [] made started
      (manifests_read "collector-deployment.yaml" "collector-service.yaml") refl
      (collector_there []) (manifests_read "prometheus-deployment.yaml" "prometheus-service.yaml")
      (template
        (rendered-RendersIn of_objects (pilot_set_finalizer ∷ []) (monitoring pilot_set)
          "prometheus-deployment.yaml" refl)
        (template
          (rendered-RendersIn of_objects (pilot_set_finalizer ∷ []) (monitoring pilot_set)
            "prometheus-service.yaml" refl)
          no_templates))
      old_key refl refl refl
