-- ===== src/Template.antt =====
-- internal/controller/templated_resources_editor.go: resources rendered from YAML templates. The
-- template engine and the decoder are parameters.
pub mod Functions
pub mod Editor
pub mod Upserts
use gmos_k8s_operator.Template.Functions.{FormatFuncs, nindent}
use gmos_k8s_operator.Prelude.{
  String, Bool, true, Option, none, some, List, [], ◌∷◌, ◌++◌, if◌then◌else◌,
}
use gmos_k8s_operator.Types.{Bytes, K8s, GlideinSet, GlideinSetCollection}
use gmos_k8s_operator.Dict.{Dict}
use gmos_k8s_operator.Exec.{
  Error, Result, ok, err, panic, and_then, Exec, pure, lift, with_new, ◌>>=◌, ◌>>◌,
}
use gmos_k8s_operator.ApiUtil.{
  ResourceUpdater, ResourceCreator, PilotSetReconcileState, create_resource_if_not_exists,
  apply_or_create,
}
use gmos_k8s_operator.ResourceName.{rn_base}
use gmos_k8s_operator.Kube.{Api}

-- collector_schemas.go
pub record CollectorTemplate : Type 0 where
  pub name : String
  pub namespace : String
  pub namespace_token : Bytes

-- pilotset_schemas.go
pub record DataSecretTemplate : Type 0 where
  pub name : String
  pub namespace : String
  pub content : Option (Dict Bytes)

-- The values that the operator puts in `templateData any`.
pub data TemplateData (k : K8s) : Type 0 where
  collector : CollectorTemplate → TemplateData k
  monitoring : GlideinSetCollection k → TemplateData k
  deployment : GlideinSet k → TemplateData k
  data_secret : DataSecretTemplate → TemplateData k

-- text/template, the encoders of `formatFuncs`, and the decoder of client-go's scheme.
pub record Engine (k : K8s) (Object : Type 0) : Type 1 where
  pub Template : Type 0
  -- a value that a template passes to `toYaml`
  pub Value : Type 0
  -- k8sYaml.Marshal, as a text, and base64.StdEncoding.EncodeToString
  pub marshal : Value → Result String
  pub encode_base64 : Bytes → String
  pub parse : FormatFuncs Value → String → Result Template
  pub execute : Template → TemplateData k → Result Bytes
  -- decode(parsed, nil, nil), decode(parsed, nil, obj)
  pub decode_new : Bytes → Result Object
  pub decode_into : Bytes → Exec Object (Unit {0})

module _ {k : K8s} {Object : Type 0} (engine : Engine k Object) where
  -- formatFuncs
  abbrev pub format_funcs : FormatFuncs engine.Value
  format_funcs = record {
    to_yaml = engine.marshal;
    nindent = nindent;
    base64 = engine.encode_base64;
  }

  pub record TemplatedResourceEditor : Type 0 where
    pub template_yaml : String
    pub parsed_yaml : Option Bytes
    pub template_data : TemplateData k

  unfoldable pub new_editor : TemplateData k → String → TemplatedResourceEditor
  new_editor d yaml = record { template_yaml = yaml; parsed_yaml = none; template_data = d }

  unfoldable pub render : TemplatedResourceEditor → Result Bytes
  unfolding and_then
  render te =
      and_then (engine.parse format_funcs te.template_yaml)
        (λ tmpl. engine.execute tmpl te.template_data)

  -- The rendered text is kept for the next call.
  unfoldable pub get_templated_yaml : Exec TemplatedResourceEditor Bytes
  unfolding render and_then
  get_templated_yaml te = elim te.parsed_yaml [
    | some parsed ↦ (ok parsed, te)
    | none ↦ elim (render te) [
      | ok parsed ↦ (ok parsed, record te { parsed_yaml = some parsed })
      | err e ↦ (err e, te)
      | panic ↦ (panic, te)
    ]
  ]

  unfoldable pub get_initial_resource_value : Exec TemplatedResourceEditor Object
  unfolding get_templated_yaml ◌>>=◌
  get_initial_resource_value = do parsed ← get_templated_yaml; lift (engine.decode_new parsed)

  -- `setResourceValue`. What it keeps in the editor is not read again: each editor makes one object.
  unfoldable pub editor_creator : TemplatedResourceEditor → ResourceCreator Object
  unfolding get_templated_yaml ◌>>=◌
  editor_creator te = record {
    set_resource_value = λ owner. do
      parsed ← lift (get_templated_yaml te).0
      engine.decode_into parsed;
  }

  -- `updateResourceValue`, which renders anew
  unfoldable pub editor_updater : TemplatedResourceEditor → ResourceUpdater Object
  unfolding render ◌>>=◌
  editor_updater te = record {
    update_resource_value = do
      parsed ← lift (render te)
      engine.decode_into parsed
      pure true;
  }

  -- How the controllers make a resource of a template: the value is decoded once for its name, and
  -- the editor then fills it.
  module _ {W : Type 0} (objects : Api W Object) (is_not_found : Error → Bool)
      (st : PilotSetReconcileState) (template_data : TemplateData k) (yaml : String) where
    unfoldable pub create_from_template : Exec W (Unit {0})
    unfolding new_editor get_initial_resource_value editor_creator create_resource_if_not_exists
        with_new ◌>>=◌
    create_from_template =
        let (val, te) = get_initial_resource_value (new_editor template_data yaml) in
        do
          obj ← lift val
          with_new obj
              (create_resource_if_not_exists objects is_not_found st rn_base (editor_creator te))

    unfoldable pub apply_from_template : Exec W (Unit {0})
    unfolding new_editor get_initial_resource_value editor_creator editor_updater apply_or_create
        with_new ◌>>=◌
    apply_from_template =
        let (val, te) = get_initial_resource_value (new_editor template_data yaml) in
        do
          obj ← lift val
          with_new obj (
              apply_or_create objects is_not_found st rn_base (editor_updater te)
                (editor_creator te))

-- What fs.WalkDir reports of an embed.FS: its entries in lexical order.
pub record WalkEntry : Type 0 where
  pub error : Option Error
  pub is_dir : Bool
  pub content : Result String

-- The function that WalkDir calls for each entry.
unfoldable pub visit : List String → WalkEntry → Result (List String)
unfolding and_then
visit templates entry = elim entry.error [
  | some e ↦ err e
  | none ↦
      if entry.is_dir
      then ok templates
      else and_then entry.content (λ text. ok (templates ++ (text ∷ [])))
]

unfoldable pub walk_dir : List String → List WalkEntry → Result (List String)
unfolding visit and_then
walk_dir templates [] = ok templates
walk_dir templates (entry ∷ entries) =
    and_then (visit templates entry) (λ visited. walk_dir visited entries)

unfoldable pub read_manifests_from_fs : List WalkEntry → Result (List String)
unfolding walk_dir
read_manifests_from_fs entries = walk_dir [] entries
