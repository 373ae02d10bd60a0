-- ===== src/Collection/Collector.antt =====
-- createCollectorForPilotSet where the collector is there already.
use gmos_k8s_operator.Prelude.{String, Bool, ◌≡◌, refl, ◌∙◌, some, List, [], ◌∷◌}
use gmos_k8s_operator.Exec.{Error, ok, pure, lift, with_new, for_each, gets, bind-ok, ◌>>=◌}
use gmos_k8s_operator.Types.{Bytes, K8s, GlideinSetCollection}
use gmos_k8s_operator.Kube.{Api, HasMeta, Kube}
use gmos_k8s_operator.Kube.Quiet.{Store}
use gmos_k8s_operator.Kube.Kinds.{IsQuietKinds}
use gmos_k8s_operator.ResourceName.{rn_base}
use gmos_k8s_operator.ApiUtil.{
  PilotSetReconcileState, ResourceCreator, child_key, resolved_name, create_resource_if_not_exists,
}
use gmos_k8s_operator.Template.{
  TemplateData, collector, Engine, new_editor, get_initial_resource_value, editor_creator,
  create_from_template, WalkEntry, read_manifests_from_fs,
}
use gmos_k8s_operator.Collection.{make_collector_template, create_collector_for_pilot_set}

module _ {k : K8s} {W Object : Type 0} (engine : Engine k Object) (hm : HasMeta Object)
    (objects : Api W Object) (is_not_found : Error → Bool) (kind_of : Object → String)
    (stores : String → Store W Object) (Q : IsQuietKinds hm is_not_found objects kind_of stores)
    (st : PilotSetReconcileState) where
  -- The object that a template names is in the cluster, under its kind.
  abbrev pub Exists : W → TemplateData k → String → Type 0
  Exists w d yaml =
      (obj : Object) × (held : Object) × ((get_initial_resource_value engine
          (new_editor engine d yaml)).0
        ≡ ok obj)
      × ((stores (kind_of obj)).find w
            (child_key st (resolved_name objects is_not_found st rn_base obj))
          ≡ some held)

  create-Exists :
      (creator : ResourceCreator Object) (obj held : Object) (w : W)
      → (stores (kind_of obj)).find w
          (child_key st (resolved_name objects is_not_found st rn_base obj))
        ≡ some held
      → with_new obj (create_resource_if_not_exists objects is_not_found st rn_base creator) w
        ≡ (ok tt, w)
  unfolding create_resource_if_not_exists with_new gets ◌>>=◌
  create-Exists creator obj held w found =
      rw ((Q.each (kind_of obj)).get-some _ obj w held refl found)

  create_from_template-Exists :
      (d : TemplateData k) (yaml : String) (w : W)
      → Exists w d yaml
      → create_from_template engine objects is_not_found st d yaml w ≡ (ok tt, w)
  unfolding create_from_template lift
  create_from_template-Exists d yaml w (obj, held, decoded, found) =
      bind-ok (λ v. ((get_initial_resource_value engine (new_editor engine d yaml)).0, v)) _
        (rw decoded)
      ∙ create-Exists
          (editor_creator engine (get_initial_resource_value engine (new_editor engine d yaml)).1)
          obj held w found

  abbrev pub AllExist : W → TemplateData k → List String → Type 0
  AllExist w d [] = Unit
  AllExist w d (yaml ∷ yamls) = Exists w d yaml × AllExist w d yamls

  for_each-AllExist :
      (d : TemplateData k) (yamls : List String) (w : W)
      → AllExist w d yamls
      → for_each yamls (create_from_template engine objects is_not_found st d) w ≡ (ok tt, w)
  unfolding for_each
  for_each-AllExist d [] w all = refl
  for_each-AllExist d (yaml ∷ yamls) w (there, all) =
      bind-ok (create_from_template engine objects is_not_found st d yaml) _
        (create_from_template-Exists d yaml w there)
      ∙ for_each-AllExist d yamls w all

module _ {k : K8s} (kube : Kube k) (engine : Engine k kube.Object) (hm : HasMeta kube.Object)
    (kind_of : kube.Object → String) (stores : String → Store kube.Cluster kube.Object)
    (Q : IsQuietKinds hm kube.is_not_found kube.objects kind_of stores)
    (collector_manifests monitoring_manifests : List WalkEntry)
    (pilot_set : GlideinSetCollection k) where
  -- The data of the collector's templates, with this signing key.
  abbrev pub collector_data : Bytes → TemplateData k
  collector_data bytes = collector (record {
    name = pilot_set.meta.name;
    namespace = pilot_set.meta.namespace;
    namespace_token = bytes;
  })

  -- In a quiet cluster that holds every object of the collector's templates under its kind and name, to create the collector
  -- ends without an error and writes nothing, whatever signing key was drawn for it: the key that
  -- the cluster holds stays.
  pub create_collector_for_pilot_set-AllExist :
      (templates : List String) (bytes : Bytes) (w : kube.Cluster)
      → read_manifests_from_fs collector_manifests ≡ ok templates
      → kube.read_random 256 w ≡ (ok bytes, w)
      → AllExist engine hm kube.objects kube.is_not_found kind_of stores Q
          (record { resource = pilot_set.meta })
          w
          (collector_data bytes)
          templates
      → create_collector_for_pilot_set kube engine collector_manifests monitoring_manifests
          pilot_set w
        ≡ (ok tt, w)
  unfolding create_collector_for_pilot_set make_collector_template lift pure
  create_collector_for_pilot_set-AllExist templates bytes w listed drawn all =
      bind-ok (λ v. (read_manifests_from_fs collector_manifests, v)) _ (rw listed)
      ∙ bind-ok (make_collector_template kube pilot_set) _ (bind-ok (kube.read_random 256) _ drawn)
      ∙ for_each-AllExist engine hm kube.objects kube.is_not_found kind_of stores Q
          (record { resource = pilot_set.meta }) (collector_data bytes) templates w all
