-- ===== src/Tests/Templates.antt =====
-- Templates of objects of several kinds, two of which share a name, and a decoder that writes the name
-- and the kind of the manifest into the object that it is given.
use gmos_k8s_operator.Prelude.{
  String, ◌≡◌, ap, refl, false, none, some, Option, List, [], ◌∷◌, ◌==◌, if◌then◌else◌,
}
use gmos_k8s_operator.Exec.{ok}
use gmos_k8s_operator.Types.{Bytes, NamespacedName}
use gmos_k8s_operator.Kube.Quiet.{claim}
use gmos_k8s_operator.ApiUtil.{resolved_name}
use gmos_k8s_operator.Template.{
  TemplateData, Engine, get_initial_resource_value, new_editor, editor_creator, editor_updater,
}
use gmos_k8s_operator.Template.Upserts.{Rendered, Renders}
use gmos_k8s_operator.Tests.Memory.{is_not_found}
use gmos_k8s_operator.Tests.Cluster.{plain, no_meta, osg}
use gmos_k8s_operator.Tests.Controllers.{engine}
use gmos_k8s_operator.Tests.Objects.{
  Object, Objects, object_meta, kind_of, object_api, object_store, object-IsMetaApi,
  object-IsQuietKinds,
}
use gmos_k8s_operator.Tests.Part.{Part, part_api, part_store, part-IsMetaApi, part-IsQuietKinds}

-- The kind and the name that a rendered text has.
abbrev kind_in : Bytes → String
kind_in [] = "Service"
kind_in (_ ∷ []) = "Deployment"
kind_in (_ ∷ _ ∷ []) = "Deployment"
kind_in (_ ∷ _ ∷ _ ∷ []) = "Secret"
kind_in (_ ∷ _ ∷ _ ∷ _ ∷ []) = "Deployment"
kind_in _ = "Service"

abbrev name_in : Bytes → String
name_in [] = "pilots-old-prometheus"
name_in (_ ∷ []) = "pilots-old-prometheus"
name_in (_ ∷ _ ∷ []) = "pilots-old"
name_in (_ ∷ _ ∷ _ ∷ []) = "pilots-old-data"
name_in _ = "pilots-old-collector"

-- The rendered text of a template.
abbrev pub render_text : String → Bytes
render_text tmpl =
    if tmpl == "prometheus-service.yaml"
    then []
    else if tmpl == "prometheus-deployment.yaml"
    then 0 ∷ []
    else if tmpl == "glideinset-deployment.yaml"
    then 0 ∷ 0 ∷ []
    else if tmpl == "glideinset-data-secret.yaml"
    then 0 ∷ 0 ∷ 0 ∷ []
    else if tmpl == "collector-deployment.yaml"
    then 0 ∷ 0 ∷ 0 ∷ 0 ∷ []
    else 0 ∷ 0 ∷ 0 ∷ 0 ∷ 0 ∷ []

-- An object after the text was decoded into it.
abbrev fill : Bytes → Object → Object
fill text t = record t {
  kind = kind_in text;
  meta = record t.meta { name = name_in text };
  content = text;
}

abbrev pub object_of : Bytes → Object
object_of text = fill text (record { kind = ""; meta = no_meta; content = [] })

abbrev pub filling : Engine plain Object
filling = record {
  Template = String;
  Value = String;
  marshal = engine.marshal;
  encode_base64 = engine.encode_base64;
  parse = λ funcs text. ok text;
  execute = λ tmpl d. ok (render_text tmpl);
  decode_new = λ text. ok (object_of text);
  decode_into = λ text t. (ok tt, fill text t);
}

abbrev filled : Bytes → Option Object → Object
filled text (some old) = fill text old
filled text none =
    fill text (record { kind = ""; meta = claim (osg "pilots-old") (osg ""); content = [] })

abbrev pub rendered : String → Rendered Object
rendered yaml = record {
  kind = kind_in (render_text yaml);
  name = name_in (render_text yaml);
  after = filled (render_text yaml);
}

-- Objects of a larger cluster, and their owner with its finalizers.
module _ {V : Type 0} (part : Part V Objects) (finalizers : List String) where
  abbrev RendersIn : TemplateData plain → String → Rendered Object → Type 0
  RendersIn =
      Renders filling object_meta (part_api part object_api) is_not_found kind_of
        (λ kind. part_store part (object_store kind)) (part-IsMetaApi part object-IsMetaApi)
        (part-IsQuietKinds part object-IsQuietKinds)
        (record { resource = record (osg "pilots-old") { finalizers = finalizers } })

  pub rendered-RendersIn :
      (d : TemplateData plain) (yaml : String)
      → (name_in (render_text yaml) == "") ≡ false
      → RendersIn d yaml (rendered yaml)
  unfolding get_initial_resource_value new_editor editor_creator editor_updater resolved_name
  rendered-RendersIn d yaml named = record {
    obj = object_of (render_text yaml);
    initial_lem = refl;
    upsert = record {
      name_lem = rw named refl;
      Of-new = refl;
      update_lem = λ old of key. refl;
      key-after = λ old of key.
          ap (λ (n : NamespacedName). record n { name = name_in (render_text yaml) }) key;
      Of-after = λ old of key. refl;
      made =
          fill (render_text yaml)
            (record { kind = ""; meta = osg (name_in (render_text yaml)); content = [] });
      create_lem = refl;
      made_free = refl;
      made_key = refl;
      Of-made = refl;
      after-none = refl;
    };
    is_dead-some = λ old live. live;
    is_dead-none = refl;
  }
