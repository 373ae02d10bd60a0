-- ===== src/Collection/Idempotent.antt =====
-- recoincileGlideinSets run a second time.
use gmos_k8s_operator.Prelude.{
  ◌<>◌, ◌≡◌, refl, sym, ap, ◌∙◌, Bool, true, false, none, some, Option, List, [], ◌∷◌,
}
use gmos_k8s_operator.Types.{K8s, NamespacedName, GlideinSet, GlideinSetSpec, GlideinSetCollection}
use gmos_k8s_operator.Exec.{ok}
use gmos_k8s_operator.Kube.{Kube, glidein_set_meta}
use gmos_k8s_operator.Kube.Quiet.{Store, IsMetaApi, IsQuiet, IsListing, cell, has_key}
use gmos_k8s_operator.Collection.{recoincile_glidein_sets}
use gmos_k8s_operator.Collection.Wanted.{IsBlank, last_entry, wanted-wanted}
use gmos_k8s_operator.Collection.Upserts.{for_each-apply_glidein_set}
use gmos_k8s_operator.Collection.Converge.{settled, applied, recoincile_glidein_sets-converges}

module _ {k : K8s} (doomed : GlideinSet k → Option (GlideinSet k)) (blank : GlideinSet k)
    (pilot_set : GlideinSetCollection k)
    (doomed_idem : (g h : GlideinSet k) → doomed g ≡ some h → doomed h ≡ some h) where
  deleted_twice :
      (listed : Bool) (o : Option (GlideinSet k)) (g : GlideinSet k)
      → doomed g ≡ o
      → settled doomed blank pilot_set none listed o ≡ o
  deleted_twice true none g h = refl
  deleted_twice false none g h = refl
  deleted_twice true (some d) g h = doomed_idem g d h
  deleted_twice false (some d) g h = refl

  settled-settled :
      (entry : Option (GlideinSetSpec k)) (b c : Bool) (o : Option (GlideinSet k))
      → (entry ≡ none → b ≡ false → c ≡ false)
      → settled doomed blank pilot_set entry c (settled doomed blank pilot_set entry b o)
        ≡ settled doomed blank pilot_set entry b o
  settled-settled (some spec) b c o h = ap some (wanted-wanted blank pilot_set spec spec o refl)
  settled-settled none true true none h = refl
  settled-settled none true false none h = refl
  settled-settled none true c (some g) h = deleted_twice c (doomed g) g refl
  settled-settled none false c o h = rw (h refl refl)

module _ {k : K8s} (kube : Kube k) (store : Store kube.Cluster (GlideinSet k))
    (Q : IsQuiet (glidein_set_meta k) kube.is_not_found kube.glidein_sets store)
    (pilot_set : GlideinSetCollection k) (M : IsMetaApi (glidein_set_meta k) kube.glidein_sets)
    (B : IsBlank kube.new_glidein_set.meta) (stored_lem : (g : GlideinSet k) → store.stored g ≡ g)
    (listing : kube.Cluster → List (GlideinSet k))
    (list_lem : (w : kube.Cluster)
      → kube.list_glidein_sets pilot_set.meta.namespace
          (("app.kubernetes.io/instance=" <> pilot_set.meta.name) ∷ [])
          (cell [] w)
        ≡ (ok tt, cell (listing w) w))
    (IsListing-listing : (w : kube.Cluster)
      → IsListing (glidein_set_meta k) store w pilot_set.meta.namespace (listing w))
    (selected : NamespacedName → Option (GlideinSet k) → Bool)
    (selected_lem : (w : kube.Cluster) (n : NamespacedName)
      → has_key (glidein_set_meta k) n (listing w) ≡ selected n (store.find w n))
    (doomed_idem : (g h : GlideinSet k) → store.doomed g ≡ some h → store.doomed h ≡ some h) where
  abbrev run : kube.Cluster → kube.Cluster
  run w = (recoincile_glidein_sets kube pilot_set w).1

  abbrev between : kube.Cluster → kube.Cluster
  between w = applied kube store Q pilot_set M B stored_lem listing list_lem IsListing-listing w

  abbrev entry_at : NamespacedName → Option (GlideinSetSpec k)
  entry_at n = last_entry pilot_set n pilot_set.spec.glidein_sets

  converges :
      (w : kube.Cluster) (n : NamespacedName)
      → store.find (run w) n
        ≡ settled store.doomed kube.new_glidein_set pilot_set
            (entry_at n)
            (has_key (glidein_set_meta k) n (listing (between w)))
            (store.find w n)
  converges w =
      (recoincile_glidein_sets-converges kube store Q pilot_set M B stored_lem listing list_lem
        IsListing-listing w).1

  -- Whether the list call returns a key that no entry has.
  listed-none :
      (w : kube.Cluster) (n : NamespacedName)
      → entry_at n ≡ none
      → has_key (glidein_set_meta k) n (listing (between w)) ≡ selected n (store.find w n)
  listed-none w n free =
      selected_lem (between w) n
      ∙ ap (selected n) (
          (for_each-apply_glidein_set kube store M Q B stored_lem pilot_set
              pilot_set.spec.glidein_sets w).1
            n
          ∙ rw free)

  still_unlisted :
      (w : kube.Cluster) (n : NamespacedName)
      → entry_at n ≡ none
      → has_key (glidein_set_meta k) n (listing (between w)) ≡ false
      → has_key (glidein_set_meta k) n (listing (between (run w))) ≡ false
  still_unlisted w n free unlisted =
      listed-none (run w) n free
      ∙ ap (selected n) (converges w n ∙ rw (free, unlisted))
      ∙ sym (listed-none w n free)
      ∙ unlisted

  -- In a quiet cluster, which stores objects as it is sent them, whose list call returns GlideinSets of
  -- the collection's namespace that are there, each or not by the object under its key alone, and
  -- where deleting an object again changes it no more: to reconcile the GlideinSets a second time ends without an error and changes nothing.
  pub recoincile_glidein_sets_idem :
      (w : kube.Cluster)
      → ((recoincile_glidein_sets kube pilot_set (run w)).0 ≡ ok tt)
        × ((n : NamespacedName) → store.find (run (run w)) n ≡ store.find (run w) n)
  recoincile_glidein_sets_idem w = (
    (recoincile_glidein_sets-converges kube store Q pilot_set M B stored_lem listing list_lem
        IsListing-listing (run w)).0,
    λ n.
        converges (run w) n
        ∙ ap
            (settled store.doomed kube.new_glidein_set pilot_set (entry_at n)
              (has_key (glidein_set_meta k) n (listing (between (run w)))))
            (converges w n)
        ∙ settled-settled store.doomed kube.new_glidein_set pilot_set doomed_idem (entry_at n) _ _
            (store.find w n) (still_unlisted w n)
        ∙ sym (converges w n),
  )
