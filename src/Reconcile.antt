-- ===== src/Reconcile.antt =====
-- The frame that both `Reconcile` methods have (glideinsetcollection_controller.go and
-- glideinset_controller.go): look the custom resource up, add the finalizer, and then either finish
-- a deletion or run the controller's own work.
pub mod Finalizer
pub mod Kept
use gmos_k8s_operator.Prelude.{String, none, some, Bool, not, if◌then◌else◌}
use gmos_k8s_operator.Types.{ObjectMeta, NamespacedName}
use gmos_k8s_operator.Exec.{
  Error, Exec, Cell, pure, raise, gets, modify, attempt, with_new, on_resource, on_world, ◌>>=◌,
  ◌>>◌,
}
use gmos_k8s_operator.Kube.{Api, HasMeta, FinalizerApi}

abbrev pub pilot_set_finalizer : String
pilot_set_finalizer = "gmos.chtc.wisc.edu/finalizer"

module _ {S T : Type 0} (api : Api S T) (is_not_found : Error → Bool) (fin : FinalizerApi)
    (hm : HasMeta T) (new : T) where
  unfoldable pub has_finalizer : T → Bool
  has_finalizer t = fin.contains_finalizer pilot_set_finalizer (hm.meta t)

  unfoldable pub change_meta : (ObjectMeta → ObjectMeta) → T → T
  change_meta f t = hm.set_meta (f (hm.meta t)) t

  unfoldable pub ensure_finalizer : Exec (Cell T S) (Unit {0})
  ensure_finalizer = do
    c ← gets (λ c. c)
    if has_finalizer c.resource then pure tt else do
      on_resource (modify (change_meta (fin.add_finalizer pilot_set_finalizer)))
      api.update

  unfoldable pub finish_deletion :
      NamespacedName → (T → Exec S (Unit {0})) → Exec (Cell T S) (Unit {0})
  finish_deletion req finalize = do
    c ← gets (λ c. c)
    if not (has_finalizer c.resource) then pure tt else do
      on_world (finalize c.resource)
      api.get req
      on_resource (modify (change_meta (fin.remove_finalizer pilot_set_finalizer)))
      api.update

  unfoldable pub reconcile_found :
      NamespacedName
      → (T → Exec S (Unit {0}))
      → (T → Exec S (Unit {0}))
      → Exec (Cell T S) (Unit {0})
  reconcile_found req finalize work = do
    ensure_finalizer
    c ← gets (λ c. c)
    elim (hm.meta c.resource).deletion_timestamp [
      | some _ ↦ finish_deletion req finalize
      | none ↦ on_world (work c.resource)
    ]

  -- A resource that is gone is no error.
  unfoldable pub reconcile :
      NamespacedName → (T → Exec S (Unit {0})) → (T → Exec S (Unit {0})) → Exec S (Unit {0})
  reconcile req finalize work = with_new new (do
    e ← attempt (api.get req)
    elim e [
      | some e ↦ if is_not_found e then pure tt else raise e
      | none ↦ reconcile_found req finalize work
    ])
