-- ===== src/Collection/Deletions.antt =====
-- The second loop of recoincileGlideinSets in a quiet cluster: the deletions.
use gmos_k8s_operator.Prelude.{
  String, ◌≡◌, refl, sym, ◌∙◌, Bool, false, not, ◌&&◌, ◌||◌, none, some, Option, List, [], ◌∷◌, inl,
  inr, arith, Bool-cases, if◌then◌else◌,
}
use gmos_k8s_operator.Types.{K8s, NamespacedName, GlideinSet, GlideinSetCollection}
use gmos_k8s_operator.Exec.{ok, for_each, ◌>>=◌, with_new}
use gmos_k8s_operator.Kube.{Kube, glidein_set_meta}
use gmos_k8s_operator.Kube.Quiet.{
  Store, IsQuiet, IsListing, has_key, key_of, same_key, same_key_iff, same_key_comm, same_key-name,
}
use gmos_k8s_operator.Collection.{is_current, outdated, delete_if_outdated}

module _ {k : K8s} (pilot_set : GlideinSetCollection k) where
  -- Some listed GlideinSet with this key is outdated.
  pub stale : List (GlideinSet k) → NamespacedName → Bool
  stale [] n = false
  stale (g ∷ gs) n = (outdated pilot_set g && same_key (key_of g.meta) n) || stale gs n

  stale-has_key :
      (gs : List (GlideinSet k)) (n : NamespacedName)
      → has_key (glidein_set_meta k) n gs ≡ false
      → stale gs n ≡ false
  unfolding stale
  stale-has_key [] n h = refl
  stale-has_key (g ∷ gs) n h = ground (arith, stale-has_key gs n)

  -- A listed key is outdated by its name.
  pub stale_lem :
      (gs : List (GlideinSet k)) (n : NamespacedName)
      → stale gs n ≡ (
          has_key (glidein_set_meta k) n gs
          && not (is_current pilot_set.meta.name n.name pilot_set.spec.glidein_sets))
  unfolding stale outdated
  stale_lem [] n = refl
  stale_lem (g ∷ gs) n = elim (Bool-cases (same_key (key_of g.meta) n)) [
    | inl same ↦ rw (same, stale_lem gs n, same_key-name (key_of g.meta) n same) (ground arith)
    | inr other ↦ rw (other, stale_lem gs n) (ground arith)
  ]

module _ {k : K8s} (kube : Kube k) (store : Store kube.Cluster (GlideinSet k))
    (Q : IsQuiet (glidein_set_meta k) kube.is_not_found kube.glidein_sets store)
    (pilot_set : GlideinSetCollection k) where
  abbrev pub gone : Option (GlideinSet k) → Option (GlideinSet k)
  gone none = none
  gone (some g) = store.doomed g

  IsListing-drop :
      (w : kube.Cluster) (m : NamespacedName) (namespace : String) (gs : List (GlideinSet k))
      → has_key (glidein_set_meta k) m gs ≡ false
      → IsListing (glidein_set_meta k) store w namespace gs
      → IsListing (glidein_set_meta k) store (store.drop w m) namespace gs
  IsListing-drop w m namespace [] h l = tt
  IsListing-drop w m namespace (g ∷ gs) h (found, here, distinct, rest) = (
    Q.find-drop w m (key_of g.meta) ∙ rw (same_key_comm m (key_of g.meta)) (ground arith),
    here,
    distinct,
    IsListing-drop w m namespace gs (ground arith) rest,
  )

  removed : GlideinSet k → NamespacedName → Option (GlideinSet k) → Option (GlideinSet k)
  removed g n o = if outdated pilot_set g && same_key (key_of g.meta) n then gone o else o

  -- One step of the loop, as the cluster and as the listing see it.
  after_step : GlideinSet k → kube.Cluster → kube.Cluster
  after_step g w = if outdated pilot_set g then store.drop w (key_of g.meta) else w

  delete_if_outdated_lem :
      (g : GlideinSet k) (w : kube.Cluster)
      → store.find w (key_of g.meta) ≡ some g
      → delete_if_outdated kube pilot_set g w ≡ (ok tt, after_step g w)
  unfolding after_step delete_if_outdated with_new
  delete_if_outdated_lem g w found = elim (Bool-cases (outdated pilot_set g)) [
    | inl old ↦ rw (old, Q.delete-some g w g found)
    | inr current ↦ rw current
  ]

  find-after_step :
      (g : GlideinSet k) (w : kube.Cluster) (n : NamespacedName)
      → store.find (after_step g w) n ≡ removed g n (store.find w n)
  unfolding after_step removed
  find-after_step g w n = ground (arith, Q.find-drop w (key_of g.meta) n)

  IsListing-after_step :
      (g : GlideinSet k) (w : kube.Cluster) (namespace : String) (gs : List (GlideinSet k))
      → has_key (glidein_set_meta k) (key_of g.meta) gs ≡ false
      → IsListing (glidein_set_meta k) store w namespace gs
      → IsListing (glidein_set_meta k) store (after_step g w) namespace gs
  unfolding after_step
  IsListing-after_step g w namespace gs distinct l = elim (Bool-cases (outdated pilot_set g)) [
    | inl old ↦ rw old (IsListing-drop w (key_of g.meta) namespace gs distinct l)
    | inr current ↦ rw current l
  ]

  removed-stale :
      (g : GlideinSet k) (gs : List (GlideinSet k)) (n : NamespacedName) (o : Option (GlideinSet k))
      → has_key (glidein_set_meta k) (key_of g.meta) gs ≡ false
      → (if stale pilot_set gs n then gone (removed g n o) else removed g n o)
        ≡ (if stale pilot_set (g ∷ gs) n then gone o else o)
  unfolding stale removed
  removed-stale g gs n o distinct = elim (Bool-cases (same_key (key_of g.meta) n)) [
    | inl same ↦
        rw
          (
            same,
            stale-has_key pilot_set gs n
                (rw (sym ((same_key_iff (key_of g.meta) n).0 same)) distinct),
          )
          (ground arith)
    | inr other ↦ rw other (ground arith)
  ]

  pub for_each-delete_if_outdated :
      (gs : List (GlideinSet k)) (w : kube.Cluster) (namespace : String)
      → IsListing (glidein_set_meta k) store w namespace gs
      → ((for_each gs (delete_if_outdated kube pilot_set) w).0 ≡ ok tt)
        × ((n : NamespacedName)
            → store.find (for_each gs (delete_if_outdated kube pilot_set) w).1 n
              ≡ (if stale pilot_set gs n then gone (store.find w n) else store.find w n))
  unfolding for_each ◌>>=◌
  for_each-delete_if_outdated [] w namespace l = unfold stale in (refl, λ n. refl)
  for_each-delete_if_outdated (g ∷ gs) w namespace (found, here, distinct, rest) =
      let (done, holds) =
        for_each-delete_if_outdated gs (after_step g w) namespace
          (IsListing-after_step g w namespace gs distinct rest) in
      rw (delete_if_outdated_lem g w found) (
        done,
        λ n. holds n ∙ rw (find-after_step g w n) (removed-stale g gs n (store.find w n) distinct),
      )

  after_step-kept :
      (I : kube.Cluster → Type 0)
      → ((w : kube.Cluster) (n : NamespacedName) → I w → I (store.drop w n))
      → (g : GlideinSet k) (w : kube.Cluster) → I w
      → I (after_step g w)
  unfolding after_step
  after_step-kept I drop g w i = elim (Bool-cases (outdated pilot_set g)) [
    | inl old ↦ rw old (drop w (key_of g.meta) i)
    | inr current ↦ rw current i
  ]

  -- What a deletion of a GlideinSet keeps, the loop keeps.
  pub for_each-delete_if_outdated-kept :
      (I : kube.Cluster → Type 0)
      → ((w : kube.Cluster) (n : NamespacedName) → I w → I (store.drop w n))
      → (gs : List (GlideinSet k)) (w : kube.Cluster) (namespace : String)
      → IsListing (glidein_set_meta k) store w namespace gs
      → I w
      → I (for_each gs (delete_if_outdated kube pilot_set) w).1
  unfolding for_each ◌>>=◌
  for_each-delete_if_outdated-kept I drop [] w namespace l i = i
  for_each-delete_if_outdated-kept I drop (g ∷ gs) w namespace (found, here, distinct, rest) i =
      rw (delete_if_outdated_lem g w found) (
        for_each-delete_if_outdated-kept I drop gs (after_step g w) namespace
          (IsListing-after_step g w namespace gs distinct rest) (after_step-kept I drop g w i))
