-- ===== src/Collection/Whole.antt =====
-- A whole reconciliation of a GlideinSetCollection, in a quiet cluster that holds its collector.
use gmos_k8s_operator.Prelude.{String, ◌<>◌, ◌≡◌, refl, ap, ◌∙◌, true, none, some, List, [], ◌∷◌}
use gmos_k8s_operator.Types.{Bytes, K8s, NamespacedName, GlideinSet, GlideinSetCollection}
use gmos_k8s_operator.Exec.{Result, ok, bind-ok}
use gmos_k8s_operator.Kube.{HasMeta, Kube, glidein_set_meta, collection_meta}
use gmos_k8s_operator.Kube.Quiet.{Store, IsMetaApi, IsQuiet, IsListing, cell, has_key}
use gmos_k8s_operator.Kube.Kinds.{IsQuietKinds}
use gmos_k8s_operator.Template.{monitoring, Engine, WalkEntry, read_manifests_from_fs}
use gmos_k8s_operator.Template.Upserts.{Rendered, AllRender, made_of}
use gmos_k8s_operator.Reconcile.{pilot_set_finalizer}
use gmos_k8s_operator.Reconcile.Finalizer.{listed, IsFinalizerApi, reconcile-listed}
use gmos_k8s_operator.Collection.{
  create_collector_for_pilot_set, create_monitoring_for_pilot_set, recoincile_glidein_sets,
  create_resources_for_pilot_set, finalize_pilot_set, reconcile_collection,
}
use gmos_k8s_operator.Collection.Wanted.{IsBlank, last_entry}
use gmos_k8s_operator.Collection.Collector.{
  AllExist, collector_data, create_collector_for_pilot_set-AllExist,
}
use gmos_k8s_operator.Collection.Monitoring.{
  create_monitoring_for_pilot_set-upserts, create_monitoring_for_pilot_set-kept,
}
use gmos_k8s_operator.Collection.Converge.{
  settled, applied, recoincile_glidein_sets-converges, recoincile_glidein_sets-kept,
}

module _ {k : K8s} (kube : Kube k) (engine : Engine k kube.Object)
    (collector_manifests monitoring_manifests : List WalkEntry) where
  -- The three types of resources in a quiet cluster, objects of every kind among them: a write of one
  -- type leaves the others.
  pub record IsQuietCluster (hm : HasMeta kube.Object)
      (collections : Store kube.Cluster (GlideinSetCollection k)) (kind_of : kube.Object → String)
      (objects : String → Store kube.Cluster kube.Object) (sets : Store kube.Cluster (GlideinSet k))
      : Type 0 where
    pub collections-IsQuiet :
        IsQuiet (collection_meta k) kube.is_not_found kube.collections collections
    pub collections-IsMetaApi : IsMetaApi (collection_meta k) kube.collections
    pub stored-collection : (c : GlideinSetCollection k) → collections.stored c ≡ c
    pub finalizers-IsFinalizerApi : IsFinalizerApi kube.finalizers
    pub objects-IsMetaApi : IsMetaApi hm kube.objects
    pub objects-IsQuiet : IsQuietKinds hm kube.is_not_found kube.objects kind_of objects
    pub sets-IsMetaApi : IsMetaApi (glidein_set_meta k) kube.glidein_sets
    pub sets-IsQuiet : IsQuiet (glidein_set_meta k) kube.is_not_found kube.glidein_sets sets
    pub stored-set : (g : GlideinSet k) → sets.stored g ≡ g
    pub set-put_object :
        (w : kube.Cluster) (kind : String) (obj : kube.Object) (n : NamespacedName)
        → sets.find ((objects kind).put w obj) n ≡ sets.find w n
    pub object-put_set :
        (w : kube.Cluster) (g : GlideinSet k) (kind : String) (n : NamespacedName)
        → (objects kind).find (sets.put w g) n ≡ (objects kind).find w n
    pub object-drop_set :
        (w : kube.Cluster) (m : NamespacedName) (kind : String) (n : NamespacedName)
        → (objects kind).find (sets.drop w m) n ≡ (objects kind).find w n

  module _ (hm : HasMeta kube.Object) (collections : Store kube.Cluster (GlideinSetCollection k))
      (kind_of : kube.Object → String) (objects : String → Store kube.Cluster kube.Object)
      (sets : Store kube.Cluster (GlideinSet k))
      (C : IsQuietCluster hm collections kind_of objects sets)
      (B : IsBlank kube.new_glidein_set.meta) (pilot_set : GlideinSetCollection k)
      (listing : kube.Cluster → List (GlideinSet k))
      (list_lem : (w : kube.Cluster)
        → kube.list_glidein_sets pilot_set.meta.namespace
            (("app.kubernetes.io/instance=" <> pilot_set.meta.name) ∷ [])
            (cell [] w)
          ≡ (ok tt, cell (listing w) w))
      (IsListing-listing : (w : kube.Cluster)
        → IsListing (glidein_set_meta k) sets w pilot_set.meta.namespace (listing w)) where
    -- The cluster once the monitoring was created.
    abbrev pub monitored : kube.Cluster → kube.Cluster
    monitored w =
        (create_monitoring_for_pilot_set kube engine collector_manifests monitoring_manifests
          pilot_set w).1

    -- The GlideinSets that the list call returns to the reconciliation.
    abbrev pub seen : kube.Cluster → List (GlideinSet k)
    seen w = listing (
        applied kube sets C.sets-IsQuiet pilot_set C.sets-IsMetaApi B C.stored-set listing list_lem
          IsListing-listing (monitored w))

    module _ (templates yamls : List String) (bytes : Bytes) (rs : List (Rendered kube.Object))
        (w : kube.Cluster)
        (collector_read : read_manifests_from_fs collector_manifests ≡ ok templates)
        (drawn : kube.read_random 256 w ≡ (ok bytes, w))
        (there : AllExist engine hm kube.objects kube.is_not_found kind_of objects C.objects-IsQuiet
          (record { resource = pilot_set.meta })
          w
          (collector_data kube engine hm kind_of objects C.objects-IsQuiet collector_manifests
            monitoring_manifests pilot_set bytes)
          templates)
        (monitoring_read : read_manifests_from_fs monitoring_manifests ≡ ok yamls)
        (rendered : AllRender engine hm kube.objects kube.is_not_found kind_of objects
          C.objects-IsMetaApi C.objects-IsQuiet
          (record { resource = pilot_set.meta })
          (monitoring pilot_set)
          yamls
          rs) where
      resources_lem :
          create_resources_for_pilot_set kube engine collector_manifests monitoring_manifests
            pilot_set w
          ≡ recoincile_glidein_sets kube pilot_set (monitored w)
      unfolding create_resources_for_pilot_set
      resources_lem =
          bind-ok
            (create_collector_for_pilot_set kube engine collector_manifests monitoring_manifests
              pilot_set)
            _
            (create_collector_for_pilot_set-AllExist kube engine hm kind_of objects
              C.objects-IsQuiet collector_manifests monitoring_manifests pilot_set templates bytes w
              collector_read drawn there)
          ∙ bind-ok
              (create_monitoring_for_pilot_set kube engine collector_manifests monitoring_manifests
                pilot_set)
              _
              (ap (λ r. (r, monitored w))
                (create_monitoring_for_pilot_set-upserts kube engine hm kind_of objects
                  C.objects-IsMetaApi C.objects-IsQuiet collector_manifests monitoring_manifests
                  pilot_set yamls rs w monitoring_read rendered).0)

      set-monitored : (n : NamespacedName) → sets.find (monitored w) n ≡ sets.find w n
      set-monitored n =
          create_monitoring_for_pilot_set-kept kube engine hm kind_of objects C.objects-IsMetaApi
            C.objects-IsQuiet collector_manifests monitoring_manifests pilot_set
            (λ v. sets.find v n ≡ sets.find w n) (λ v kind obj h. C.set-put_object v kind obj n ∙ h)
            yamls rs w monitoring_read rendered refl

      object-sets :
          (v : kube.Cluster) (kind : String) (n : NamespacedName)
          → (objects kind).find (recoincile_glidein_sets kube pilot_set v).1 n
            ≡ (objects kind).find v n
      object-sets v kind n =
          recoincile_glidein_sets-kept kube sets C.sets-IsQuiet pilot_set C.sets-IsMetaApi B
            C.stored-set listing list_lem IsListing-listing
            (λ u. (objects kind).find u n ≡ (objects kind).find v n)
            (λ u g h. C.object-put_set u g kind n ∙ h) (λ u m h. C.object-drop_set u m kind n ∙ h) v
            refl

      abbrev pub run : NamespacedName → Result (Unit {0}) × kube.Cluster
      run req = reconcile_collection kube engine collector_manifests monitoring_manifests req w

      reconcile_collection_lem :
          (req : NamespacedName)
          → collections.find w req ≡ some pilot_set
          → pilot_set.meta.deletion_timestamp ≡ none
          → listed pilot_set_finalizer pilot_set.meta.finalizers ≡ true
          → run req ≡ recoincile_glidein_sets kube pilot_set (monitored w)
      unfolding reconcile_collection
      reconcile_collection_lem req found alive has =
          reconcile-listed (collection_meta k) kube.is_not_found kube.collections collections
            C.collections-IsQuiet C.collections-IsMetaApi C.stored-collection kube.finalizers
            C.finalizers-IsFinalizerApi kube.new_collection req
            (finalize_pilot_set kube engine collector_manifests monitoring_manifests)
            (create_resources_for_pilot_set kube engine collector_manifests monitoring_manifests) w
            pilot_set found alive has
          ∙ resources_lem

      -- In a quiet cluster, in which a write of an object leaves the GlideinSets, and a write or a
      -- deletion of a GlideinSet the objects; which stores collections and GlideinSets as it is sent
      -- them; and whose list call returns GlideinSets of the collection's namespace that are there:
      -- where a new GlideinSet is blank, a signing key can be drawn without a change of the cluster,
      -- every object of the collector's templates is there under its kind and name, and every monitoring template can be
      -- read, rendered and decoded, to reconcile a live collection that has the finalizer ends
      -- without an error. Under the key of an entry there is then the GlideinSet that the last entry
      -- of that key wants; a listed GlideinSet that no entry names is gone, or what the server makes
      -- of a deletion; every other GlideinSet is as before. Under each kind and key of the monitoring there
      -- is what its templates made of the object that was there, or of none, as the server stores
      -- it; every other object is as it was.
      pub reconcile_collection-converges :
          (req : NamespacedName)
          → collections.find w req ≡ some pilot_set
          → pilot_set.meta.deletion_timestamp ≡ none
          → listed pilot_set_finalizer pilot_set.meta.finalizers ≡ true
          → ((run req).0 ≡ ok tt)
            × ((n : NamespacedName)
                → sets.find (run req).1 n
                  ≡ settled sets.doomed kube.new_glidein_set pilot_set
                      (last_entry pilot_set n pilot_set.spec.glidein_sets)
                      (has_key (glidein_set_meta k) n (seen w))
                      (sets.find w n))
            × ((kind : String) (n : NamespacedName)
                → (objects kind).find (run req).1 n
                  ≡ made_of engine hm kube.objects kube.is_not_found kind_of objects
                      C.objects-IsMetaApi C.objects-IsQuiet
                      (record { resource = pilot_set.meta })
                      rs
                      kind
                      n
                      ((objects kind).find w n))
      reconcile_collection-converges req found alive has =
          let ran = reconcile_collection_lem req found alive has in
          let (done, settles) =
            recoincile_glidein_sets-converges kube sets C.sets-IsQuiet pilot_set C.sets-IsMetaApi B
              C.stored-set listing list_lem IsListing-listing (monitored w) in
          let (_, made) =
            create_monitoring_for_pilot_set-upserts kube engine hm kind_of objects
              C.objects-IsMetaApi C.objects-IsQuiet collector_manifests monitoring_manifests
              pilot_set yamls rs w monitoring_read rendered in
          rw ran (
            done,
            λ n. settles n ∙ rw (set-monitored n) refl,
            λ kind n. object-sets (monitored w) kind n ∙ made kind n,
          )
