-- ===== src/ApiUtil.antt =====
-- internal/controller/api_util.go: get, create and update of one child resource of a custom
-- resource. Log calls have no effect here.
pub mod Upsert
use gmos_k8s_operator.Prelude.{String, none, some, Bool, ◌==◌, if◌then◌else◌}
use gmos_k8s_operator.Types.{ObjectMeta, NamespacedName}
use gmos_k8s_operator.ResourceName.{ResourceName, name_for}
use gmos_k8s_operator.Exec.{
  Error, Exec, Cell, pure, raise, gets, modify, attempt, on_resource, ◌>>=◌, ◌>>◌,
}
use gmos_k8s_operator.Kube.{Api}

pub record ResourceUpdater (T : Type 0) : Type 0 where
  pub update_resource_value : Exec T Bool

pub record ResourceCreator (T : Type 0) : Type 0 where
  pub set_resource_value : ObjectMeta → Exec T (Unit {0})

-- The context is not modelled, and the reconciler is the client that the functions below take.
pub record PilotSetReconcileState : Type 0 where
  pub resource : ObjectMeta

abbrev pub child_key : PilotSetReconcileState → String → NamespacedName
child_key st name = record { namespace = st.resource.namespace; name = name }

module _ {W T : Type 0} (api : Api W T) (is_not_found : Error → Bool)
    (st : PilotSetReconcileState) where
  -- The name of the object, if it has one already, comes before the name made from the parent's.
  unfoldable pub resolved_name : ResourceName → T → String
  unfolding name_for
  resolved_name rn resource =
      if api.get_name resource == "" then name_for rn st.resource else api.get_name resource

  -- An error of `setResourceValue` is logged, and the object is created nevertheless.
  unfoldable pub create_new : String → ResourceCreator T → Exec (Cell T W) (Unit {0})
  unfolding attempt on_resource ◌>>=◌
  create_new name creator = do
    on_resource (modify (api.set_name name))
    on_resource (modify (api.set_namespace st.resource.namespace))
    attempt (on_resource (creator.set_resource_value st.resource))
    on_resource (api.set_controller_reference st.resource)
    api.create

  unfoldable pub create_resource_if_not_exists :
      ResourceName → ResourceCreator T → Exec (Cell T W) (Unit {0})
  unfolding resolved_name create_new attempt ◌>>=◌
  create_resource_if_not_exists rn creator = do
    name ← gets (λ c. resolved_name rn c.resource)
    e ← attempt (api.get (child_key st name))
    elim e [ none ↦ pure tt | some e ↦ if is_not_found e then create_new name creator else raise e ]

  -- The same without the object's own name: `createRuntimeObjectIfNotExists`.
  unfoldable pub create_runtime_object_if_not_exists :
      ResourceName → ResourceCreator T → Exec (Cell T W) (Unit {0})
  unfolding name_for create_new attempt ◌>>=◌
  create_runtime_object_if_not_exists rn creator = do
    e ← attempt (api.get (child_key st (name_for rn st.resource)))
    elim e [
      | none ↦ pure tt
      | some e ↦ if is_not_found e then create_new (name_for rn st.resource) creator else raise e
    ]

  unfoldable pub apply_update_to_resource :
      ResourceName → ResourceUpdater T → Exec (Cell T W) (Unit {0})
  unfolding resolved_name on_resource ◌>>=◌
  apply_update_to_resource rn updater = do
    name ← gets (λ c. resolved_name rn c.resource)
    api.get (child_key st name)
    updated ← on_resource updater.update_resource_value
    if updated then api.update else pure tt

  unfoldable pub get_resource_value : ResourceName → Exec (Cell T W) (Unit {0})
  unfolding name_for
  get_resource_value rn = api.get (child_key st (name_for rn st.resource))

  -- The idiom of apply_from_template, on one object: update it, and create it if that says "not found".
  unfoldable pub apply_or_create :
      ResourceName → ResourceUpdater T → ResourceCreator T → Exec (Cell T W) (Unit {0})
  unfolding apply_update_to_resource create_resource_if_not_exists attempt ◌>>=◌
  apply_or_create rn updater creator = do
    e ← attempt (apply_update_to_resource rn updater)
    elim e [
      | none ↦ pure tt
      | some e ↦ if is_not_found e then create_resource_if_not_exists rn creator else raise e
    ]
