-- ===== src/Template/Editor.antt =====
-- One editor that creates and updates an object: the rendered text that it keeps.
use gmos_k8s_operator.Prelude.{
  String, ◌≡◌, refl, sym, ap, ◌∙◌, Option, none, some, true, inl, inr, Option-cases,
}
use gmos_k8s_operator.Types.{Bytes, K8s, ObjectMeta}
use gmos_k8s_operator.Exec.{
  Result, ok, err, panic, pure, lift, ended, returned, failed, crashed, ◌>>=◌,
}
use gmos_k8s_operator.Template.{
  TemplateData, Engine, TemplatedResourceEditor, new_editor, render, get_templated_yaml,
  get_initial_resource_value, editor_creator, editor_updater,
}

some_inj : {A : Type 0} {a b : A} → some a ≡ some b → a ≡ b
some_inj h = cc

module _ {k : K8s} {Object : Type 0} (engine : Engine k Object) where
  -- What an editor keeps is what it would render.
  record IsCoherent (te : TemplatedResourceEditor engine) : Type 0 where
    kept_lem : (parsed : Bytes) → te.parsed_yaml ≡ some parsed → render engine te ≡ ok parsed

  new_editor-IsCoherent :
      (d : TemplateData k) (yaml : String) → IsCoherent (new_editor engine d yaml)
  unfolding new_editor
  new_editor-IsCoherent d yaml = record { kept_lem = λ parsed h. cc }

  -- The editor after it rendered.
  abbrev rendered : TemplatedResourceEditor engine → Result Bytes → TemplatedResourceEditor engine
  rendered te (ok parsed) = record te { parsed_yaml = some parsed }
  rendered te (err e) = te
  rendered te panic = te

  pick :
      (te : TemplatedResourceEditor engine) (r : Result Bytes)
      → ◌≡◌ {A = Result Bytes × TemplatedResourceEditor engine}
          (elim r [
            | ok parsed ↦ (ok parsed, record te { parsed_yaml = some parsed })
            | err e ↦ (err e, te)
            | panic ↦ (panic, te)
          ])
          (r, rendered te r)
  pick te (ok parsed) = refl
  pick te (err e) = refl
  pick te panic = refl

  -- What it returns, by the text that it keeps.
  abbrev by_cache :
      TemplatedResourceEditor engine → Option Bytes → Result Bytes × TemplatedResourceEditor engine
  by_cache te o = elim o [
    | some parsed ↦ (ok parsed, te)
    | none ↦ elim (render engine te) [
      | ok parsed ↦ (ok parsed, record te { parsed_yaml = some parsed })
      | err e ↦ (err e, te)
      | panic ↦ (panic, te)
    ]
  ]

  get_templated_yaml-by_cache :
      (te : TemplatedResourceEditor engine)
      → get_templated_yaml engine te ≡ by_cache te te.parsed_yaml
  unfolding get_templated_yaml
  get_templated_yaml-by_cache te = refl

  IsCoherent-rendered :
      (te : TemplatedResourceEditor engine) (r : Result Bytes)
      → render engine te ≡ r
      → IsCoherent te
      → IsCoherent (rendered te r)
  unfolding render
  IsCoherent-rendered te (ok parsed) h I = record { kept_lem = λ p q. h ∙ ap ok (some_inj q) }
  IsCoherent-rendered te (err e) h I = I
  IsCoherent-rendered te panic h I = I

  -- It returns what it would render, and stays coherent.
  get_templated_yaml_lem :
      (te : TemplatedResourceEditor engine)
      → IsCoherent te
      → ((get_templated_yaml engine te).0 ≡ render engine te)
        × IsCoherent (get_templated_yaml engine te).1
  get_templated_yaml_lem te I = elim (Option-cases te.parsed_yaml) [
    | inl missing ↦
        let ran : get_templated_yaml engine te
            ≡ (render engine te, rendered te (render engine te)) =
          get_templated_yaml-by_cache te ∙ ap (by_cache te) missing ∙ pick te (render engine te) in
        rw ran (refl, IsCoherent-rendered te (render engine te) refl I)
    | inr (parsed, held) ↦
        let ran : get_templated_yaml engine te ≡ (ok parsed, te) =
          get_templated_yaml-by_cache te ∙ ap (by_cache te) held in
        rw ran (sym (I.kept_lem parsed held), I)
  ]

  get_initial-IsCoherent :
      (te : TemplatedResourceEditor engine)
      → IsCoherent te
      → IsCoherent (get_initial_resource_value engine te).1
  unfolding get_initial_resource_value lift ◌>>=◌
  get_initial-IsCoherent te I =
      let kept = (get_templated_yaml_lem te I).1 in
      elim (ended (get_templated_yaml engine te)) [
        | returned a te' p ↦ rw p (rw p at kept)
        | failed e te' p ↦ rw p (rw p at kept)
        | crashed te' p ↦ rw p (rw p at kept)
      ]

  fill_assoc :
      (r : Result Bytes) (obj : Object)
      → (lift r >>= λ parsed. engine.decode_into parsed >>= λ _. pure true) obj
        ≡ ((lift r >>= λ parsed. engine.decode_into parsed) >>= λ _. pure true) obj
  unfolding lift ◌>>=◌
  fill_assoc (ok parsed) obj = refl
  fill_assoc (err e) obj = refl
  fill_assoc panic obj = refl

  -- An editor that was new, and gave the object its name, updates an object exactly as it creates it.
  pub editor_updater-editor_creator :
      (d : TemplateData k) (yaml : String) (owner : ObjectMeta) (obj : Object)
      → (editor_updater engine
            (get_initial_resource_value engine (new_editor engine d yaml)).1).update_resource_value
          obj
        ≡ ((editor_creator engine
                  (get_initial_resource_value engine
                    (new_editor engine d yaml)).1).set_resource_value
                owner
              >>= λ _. pure true)
            obj
  unfolding editor_updater editor_creator
  editor_updater-editor_creator d yaml owner obj =
      let te = (get_initial_resource_value engine (new_editor engine d yaml)).1 in
      let I = get_initial-IsCoherent (new_editor engine d yaml) (new_editor-IsCoherent d yaml) in
      rw (get_templated_yaml_lem te I).0 (fill_assoc (render engine te) obj)
