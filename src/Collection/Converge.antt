-- ===== src/Collection/Converge.antt =====
-- recoincileGlideinSets in a quiet cluster, against its specification.
use text.Mathlib.TextLemmas.{append_assoc}
use gmos_k8s_operator.Prelude.{
  String, ◌<>◌, ◌≡◌, refl, sym, ◌∙◌, ap, Bool, true, false, not, ◌&&◌, none, some, Option, List, [],
  ◌∷◌, inl, inr, arith, eq_iff, Bool-cases, if◌then◌else◌,
}
use gmos_k8s_operator.Types.{K8s, NamespacedName, GlideinSet, GlideinSetSpec, GlideinSetCollection}
use gmos_k8s_operator.Exec.{bind-ok, ok, for_each, attempt, ◌>>=◌, with_new}
use gmos_k8s_operator.Kube.{Kube, glidein_set_meta}
use gmos_k8s_operator.Kube.Quiet.{Store, IsMetaApi, IsQuiet, IsListing, cell, has_key}
use gmos_k8s_operator.Collection.{
  is_current, existing_glidein_sets, apply_glidein_set, delete_if_outdated, recoincile_glidein_sets,
}
use gmos_k8s_operator.Collection.Wanted.{
  IsBlank, entry_key, last_entry, last_entry-key, overlay, wanted,
}
use gmos_k8s_operator.Collection.Upserts.{
  for_each-apply_glidein_set, for_each-apply_glidein_set-kept,
}
use gmos_k8s_operator.Collection.Deletions.{
  stale, stale_lem, gone, for_each-delete_if_outdated, for_each-delete_if_outdated-kept,
}

abbrev is_some {ℓ} : {A : Type ℓ} → Option A → Bool
is_some none = false
is_some (some _) = true

module _ {k : K8s} (pilot_set : GlideinSetCollection k) (n : NamespacedName)
    (here : n.namespace ≡ pilot_set.meta.namespace) where
  -- The names that the deletion loop spares are those of the entries.
  is_current-last_entry :
      (specs : List (GlideinSetSpec k))
      → is_current pilot_set.meta.name n.name specs ≡ is_some (last_entry pilot_set n specs)
  unfolding is_current last_entry entry_key
  is_current-last_entry [] = refl
  is_current-last_entry (spec ∷ specs) = ground (
    arith,
    is_current-last_entry specs,
    append_assoc pilot_set.meta.name "-" spec.name,
    eq_iff n.name ((pilot_set.meta.name <> "-") <> spec.name),
    eq_iff (pilot_set.meta.name <> ("-" <> spec.name)) n.name,
    eq_iff pilot_set.meta.namespace n.namespace,
  )

module _ {k : K8s} (store_doomed : GlideinSet k → Option (GlideinSet k)) (blank : GlideinSet k)
    (pilot_set : GlideinSetCollection k) where
  -- What becomes of the object under a key: what the last entry of that key wants, or else its
  -- deletion if it is listed, or else nothing.
  abbrev pub settled :
      Option (GlideinSetSpec k) → Bool → Option (GlideinSet k) → Option (GlideinSet k)
  settled (some spec) listed o = some (wanted blank pilot_set spec o)
  settled none true none = none
  settled none true (some g) = store_doomed g
  settled none false o = o

module _ {k : K8s} (kube : Kube k) (store : Store kube.Cluster (GlideinSet k))
    (Q : IsQuiet (glidein_set_meta k) kube.is_not_found kube.glidein_sets store)
    (pilot_set : GlideinSetCollection k) where
  IsListing-namespace :
      (gs : List (GlideinSet k)) (w : kube.Cluster) (n : NamespacedName) (namespace : String)
      → IsListing (glidein_set_meta k) store w namespace gs
      → has_key (glidein_set_meta k) n gs ≡ true
      → n.namespace ≡ namespace
  IsListing-namespace [] w n namespace l h = cc
  IsListing-namespace (g ∷ gs) w n namespace (found, here, distinct, rest) h =
      ground (arith, IsListing-namespace gs w n namespace rest, eq_iff g.meta.namespace n.namespace)

  stale-listed :
      (gs : List (GlideinSet k)) (n : NamespacedName)
      → n.namespace ≡ pilot_set.meta.namespace
      → stale pilot_set gs n ≡ (
          has_key (glidein_set_meta k) n gs
          && not (is_some (last_entry pilot_set n pilot_set.spec.glidein_sets)))
  stale-listed gs n here =
      stale_lem pilot_set gs n
      ∙ ap (λ b. has_key (glidein_set_meta k) n gs && not b)
          (is_current-last_entry pilot_set n here pilot_set.spec.glidein_sets)

  -- The two loops together, at one key.
  settled-stale :
      (gs : List (GlideinSet k)) (w : kube.Cluster) (n : NamespacedName)
      (entry : Option (GlideinSetSpec k)) (o : Option (GlideinSet k))
      → IsListing (glidein_set_meta k) store w pilot_set.meta.namespace gs
      → last_entry pilot_set n pilot_set.spec.glidein_sets ≡ entry
      → (if stale pilot_set gs n
          then gone kube store Q pilot_set (overlay kube.new_glidein_set pilot_set entry o)
          else overlay kube.new_glidein_set pilot_set entry o)
        ≡ settled store.doomed kube.new_glidein_set pilot_set entry
            (has_key (glidein_set_meta k) n gs)
            o
  settled-stale gs w n (some spec) o l e =
      let here : n.namespace ≡ pilot_set.meta.namespace =
        unfold entry_key in
        ap (λ (m : NamespacedName). m.namespace)
          (sym (last_entry-key kube.new_glidein_set pilot_set n _ spec e)) in
      rw (stale-listed gs n here, e) (ground arith)
  settled-stale gs w n none o l e = elim (Bool-cases (has_key (glidein_set_meta k) n gs)) [
    | inl listed ↦
        rw (stale-listed gs n (IsListing-namespace gs w n _ l listed), e, listed) (ground arith)
    | inr missing ↦ rw (stale_lem, missing)
  ]

  module _ (M : IsMetaApi (glidein_set_meta k) kube.glidein_sets)
      (B : IsBlank kube.new_glidein_set.meta) (stored_lem : (g : GlideinSet k) → store.stored g ≡ g)
      (listing : kube.Cluster → List (GlideinSet k))
      (list_lem : (w : kube.Cluster)
        → kube.list_glidein_sets pilot_set.meta.namespace
            (("app.kubernetes.io/instance=" <> pilot_set.meta.name) ∷ [])
            (cell [] w)
          ≡ (ok tt, cell (listing w) w))
      (IsListing-listing : (w : kube.Cluster)
        → IsListing (glidein_set_meta k) store w pilot_set.meta.namespace (listing w)) where
    -- The cluster between the two loops.
    abbrev pub applied : kube.Cluster → kube.Cluster
    applied w = (for_each pilot_set.spec.glidein_sets (apply_glidein_set kube pilot_set) w).1

    existing_glidein_sets_lem :
        (w : kube.Cluster) → existing_glidein_sets kube pilot_set w ≡ (ok (listing w), w)
    unfolding existing_glidein_sets with_new attempt ◌>>=◌
    existing_glidein_sets_lem w = rw (list_lem w)

    recoincile_glidein_sets_lem :
        (w : kube.Cluster)
        → recoincile_glidein_sets kube pilot_set w
          ≡ for_each (listing (applied w)) (delete_if_outdated kube pilot_set) (applied w)
    unfolding recoincile_glidein_sets
    recoincile_glidein_sets_lem w =
        bind-ok (for_each pilot_set.spec.glidein_sets (apply_glidein_set kube pilot_set)) _ (
          ap (λ r. (r, applied w))
            (for_each-apply_glidein_set kube store M Q B stored_lem pilot_set
              pilot_set.spec.glidein_sets w).0)
        ∙ bind-ok (existing_glidein_sets kube pilot_set) _ (existing_glidein_sets_lem (applied w))

    -- In a quiet cluster, which stores objects as it is sent them, and whose list call returns
    -- GlideinSets of the collection's namespace that are there, the GlideinSets are reconciled
    -- without an error. Under the key of an entry there is then the object that the last entry of
    -- that key wants: the new spec in the object that was there, or a new object with labels and
    -- controller. A listed GlideinSet that no entry names is gone, or what the server makes of a
    -- deletion. Everything else is as before.
    pub recoincile_glidein_sets-converges :
        (w : kube.Cluster)
        → ((recoincile_glidein_sets kube pilot_set w).0 ≡ ok tt)
          × ((n : NamespacedName)
              → store.find (recoincile_glidein_sets kube pilot_set w).1 n
                ≡ settled store.doomed kube.new_glidein_set pilot_set
                    (last_entry pilot_set n pilot_set.spec.glidein_sets)
                    (has_key (glidein_set_meta k) n (listing (applied w)))
                    (store.find w n))
    recoincile_glidein_sets-converges w =
        let (done, deleted) =
          for_each-delete_if_outdated kube store Q pilot_set (listing (applied w)) (applied w)
            pilot_set.meta.namespace (IsListing-listing (applied w)) in
        rw (recoincile_glidein_sets_lem w) (
          done,
          λ n.
              deleted n
              ∙ rw
                  ((for_each-apply_glidein_set kube store M Q B stored_lem pilot_set
                      pilot_set.spec.glidein_sets w).1
                    n)
                  (settled-stale (listing (applied w)) (applied w) n _ (store.find w n)
                    (IsListing-listing (applied w)) refl),
        )

    -- What the writes and the deletions of GlideinSets keep, all of it keeps.
    pub recoincile_glidein_sets-kept :
        (I : kube.Cluster → Type 0)
        → ((w : kube.Cluster) (g : GlideinSet k) → I w → I (store.put w g))
        → ((w : kube.Cluster) (n : NamespacedName) → I w → I (store.drop w n))
        → (w : kube.Cluster) → I w
        → I (recoincile_glidein_sets kube pilot_set w).1
    recoincile_glidein_sets-kept I put drop w i = rw (recoincile_glidein_sets_lem w) (
        for_each-delete_if_outdated-kept kube store Q pilot_set I drop (listing (applied w))
          (applied w) pilot_set.meta.namespace (IsListing-listing (applied w))
          (for_each-apply_glidein_set-kept kube store M Q B stored_lem pilot_set I put
            pilot_set.spec.glidein_sets w i))
