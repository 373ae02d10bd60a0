-- ===== src/Tests/Twice.antt =====
-- The collection of the module Cluster, reconciled twice.
use gmos_k8s_operator.Prelude.{
  ◌≡◌, refl, ap, ◌∙◌, Option, none, some, Bool, true, false, ◌&&◌, ◌||◌, [], ◌∷◌, inl, inr,
  Bool-cases,
}
use gmos_k8s_operator.Types.{NamespacedName, GlideinSet}
use gmos_k8s_operator.Exec.{ok}
use gmos_k8s_operator.Kube.Quiet.{has_key, key_of, same_key, same_key_iff}
use gmos_k8s_operator.Collection.{recoincile_glidein_sets}
use gmos_k8s_operator.Collection.Idempotent.{recoincile_glidein_sets_idem}
use gmos_k8s_operator.Tests.Memory.{Memory, memory_store, memory-IsMetaApi, memory-IsQuiet}
use gmos_k8s_operator.Tests.Cluster.{
  plain, sets, kube, before, pilots, old_key, listing, IsListing-found,
}

abbrev is_there : Option (GlideinSet plain) → Bool
is_there none = false
is_there (some g) = true

-- The list call returns the one GlideinSet with the label if it is there.
abbrev selected : NamespacedName → Option (GlideinSet plain) → Bool
selected n o = same_key old_key n && is_there o

selected-found :
    (w : Memory sets) (n : NamespacedName) (o : Option (GlideinSet plain))
    → (memory_store sets).find w old_key ≡ o
    → has_key sets n (elim o [ none ↦ [] | some g ↦ g ∷ [] ])
      ≡ selected n ((memory_store sets).find w n)
selected-found w n none h = elim (Bool-cases (same_key old_key n)) [
  | inl same ↦ rw (same, ← (same_key_iff old_key n).0 same, h)
  | inr other ↦ rw other
]
selected-found w n (some g) h =
    let key : key_of g.meta ≡ old_key = (memory-IsQuiet sets).key-find old_key w g h in
    ap (λ m. same_key m n || false) key ∙ elim (Bool-cases (same_key old_key n)) [
      | inl same ↦ rw (same, ← (same_key_iff old_key n).0 same, h)
      | inr other ↦ rw other
    ]

abbrev once : Memory sets
once = (recoincile_glidein_sets kube pilots before).1

recoincile_glidein_sets_idem_example :
    ((recoincile_glidein_sets kube pilots once).0 ≡ ok tt)
    × ((n : NamespacedName)
        → (memory_store sets).find (recoincile_glidein_sets kube pilots once).1 n
          ≡ (memory_store sets).find once n)
recoincile_glidein_sets_idem_example =
    recoincile_glidein_sets_idem kube (memory_store sets) (memory-IsQuiet sets) pilots
      (memory-IsMetaApi sets λ m g. refl)
      (record { name_lem = refl; controller_lem = refl; deletion_timestamp_lem = refl }) (λ g. refl)
      listing (λ w. refl) (λ w. IsListing-found w ((memory_store sets).find w old_key) refl)
      selected (λ w n. selected-found w n ((memory_store sets).find w old_key) refl) (λ g h p. cc)
      before
