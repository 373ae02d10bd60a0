-- ===== src/Tests/Writes.antt =====
-- One GlideinSet that is finalized, marked for deletion or written.
use gmos_k8s_operator.Prelude.{◌≡◌, refl, Option, none, some, true}
use gmos_k8s_operator.Types.{GlideinSet}
use gmos_k8s_operator.Exec.{ok, Exec}
use gmos_k8s_operator.Kube.Quiet.{cell, claim}
use gmos_k8s_operator.Kube.Kinds.{Every, IsQuiet-IsQuietFor}
use gmos_k8s_operator.ApiUtil.{
  resolved_name, PilotSetReconcileState, ResourceUpdater, ResourceCreator, apply_or_create,
}
use gmos_k8s_operator.ApiUtil.Upsert.{IsUpsert, upserted, apply_or_create_lem}
use gmos_k8s_operator.ResourceName.{name_for}
use gmos_k8s_operator.Reconcile.{pilot_set_finalizer, reconcile}
use gmos_k8s_operator.Reconcile.Finalizer.{listed, reconcile-live}
use gmos_k8s_operator.Tests.Memory.{
  Memory, memory_store, memory_api, memory-IsMetaApi, memory-IsQuiet, is_not_found,
}
use gmos_k8s_operator.Tests.Cluster.{
  plain, no_meta, osg, entry, glidein_set, sets, old_key, old_set, before, finalizer_api,
  finalizer_api-IsFinalizerApi,
}

abbrev nothing : GlideinSet plain → Exec (Memory sets) (Unit {0})
nothing t s = (ok tt, s)

reconcile-live_example :
    (t' : GlideinSet plain) × (s' : Memory sets) × (reconcile
        (memory_api sets)
        is_not_found
        finalizer_api
        sets
        (glidein_set no_meta "")
        old_key
        nothing
        nothing
        before
      ≡ nothing t' s')
    × (listed pilot_set_finalizer t'.meta.finalizers ≡ true)
    × ((memory_store sets).find s' old_key ≡ some t')
reconcile-live_example =
    reconcile-live sets is_not_found (memory_api sets) (memory_store sets) (memory-IsQuiet sets)
      (memory-IsMetaApi sets λ m g. refl) (λ g. refl) finalizer_api finalizer_api-IsFinalizerApi
      (glidein_set no_meta "") old_key nothing nothing before old_set refl refl

abbrev parent : PilotSetReconcileState
parent = record { resource = osg "pilots" }

abbrev set_spec : GlideinSet plain → GlideinSet plain
set_spec g = record g { spec = entry "new" }

abbrev spec_updater : ResourceUpdater (GlideinSet plain)
spec_updater = record { update_resource_value = λ g. (ok true, set_spec g) }

abbrev spec_creator : ResourceCreator (GlideinSet plain)
spec_creator = record { set_resource_value = λ owner g. (ok tt, set_spec g) }

abbrev made_set : GlideinSet plain
made_set = glidein_set (osg "pilots-new") "new"

abbrev after_upsert : Option (GlideinSet plain) → GlideinSet plain
after_upsert (some old) = set_spec old
after_upsert none = record made_set { meta = claim (osg "pilots") made_set.meta }

spec-IsUpsert :
    IsUpsert sets is_not_found
      (memory_api sets)
      (memory_store sets)
      (memory-IsMetaApi sets λ m g. refl)
      Every
      (IsQuiet-IsQuietFor (memory-IsQuiet sets))
      parent
      "-new"
      "pilots-new"
      spec_updater
      spec_creator
      (glidein_set no_meta "")
      after_upsert
unfolding name_for
spec-IsUpsert = record {
  name_lem = unfold resolved_name in refl;
  Of-new = tt;
  update_lem = λ old of key. refl;
  key-after = λ old of key. key;
  Of-after = λ old of key. tt;
  made = made_set;
  create_lem = refl;
  made_free = refl;
  made_key = refl;
  Of-made = tt;
  after-none = refl;
}

apply_or_create_example :
    apply_or_create
      (memory_api sets)
      is_not_found
      parent
      "-new"
      spec_updater
      spec_creator
      (cell (glidein_set no_meta "") before)
    ≡ (
      ok tt,
      cell
          (upserted sets is_not_found
            (memory_api sets)
            (memory_store sets)
            (memory-IsMetaApi sets λ m g. refl)
            Every
            (IsQuiet-IsQuietFor (memory-IsQuiet sets))
            parent
            "-new"
            "pilots-new"
            after_upsert
            before)
          ((memory_store sets).put before (
            upserted sets is_not_found
              (memory_api sets)
              (memory_store sets)
              (memory-IsMetaApi sets λ m g. refl)
              Every
              (IsQuiet-IsQuietFor (memory-IsQuiet sets))
              parent
              "-new"
              "pilots-new"
              after_upsert
              before)),
    )
apply_or_create_example =
    apply_or_create_lem sets is_not_found (memory_api sets) (memory_store sets)
      (memory-IsMetaApi sets λ m g. refl) Every (IsQuiet-IsQuietFor (memory-IsQuiet sets)) parent
      "-new" "pilots-new" spec_updater spec_creator (glidein_set no_meta "") after_upsert before
      spec-IsUpsert
