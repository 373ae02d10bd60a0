-- ===== src/Template/Upserts.antt =====
-- What resources made from templates do to a quiet cluster, one template after the other.
use gmos_k8s_operator.Prelude.{
  String, ◌≡◌, refl, ◌∙◌, ap, Bool, true, false, ◌&&◌, ◌==◌, eq_iff, arith, Option, none, some,
  List, [], ◌∷◌, inl, inr, Bool-cases, if◌then◌else◌,
}
use gmos_k8s_operator.Types.{ObjectMeta, K8s, NamespacedName}
use gmos_k8s_operator.ResourceName.{rn_base}
use gmos_k8s_operator.Exec.{Error, Result, ok, Cell, for_each, lift, with_new, bind-ok, ◌>>=◌}
use gmos_k8s_operator.Kube.{Api, HasMeta}
use gmos_k8s_operator.Kube.Quiet.{Store, IsMetaApi, key_of, same_key, same_key_iff, is_dead}
use gmos_k8s_operator.Kube.Kinds.{OfKind, IsQuietKinds}
use gmos_k8s_operator.ApiUtil.{PilotSetReconcileState, child_key}
use gmos_k8s_operator.ApiUtil.Upsert.{IsUpsert, apply_or_create_lem}
use gmos_k8s_operator.Template.{
  TemplateData, Engine, TemplatedResourceEditor, new_editor, get_initial_resource_value,
  editor_creator, editor_updater, apply_from_template,
}

-- What a rendered template asks for: the object's kind and name, and the object in place of an old one
-- or of none.
pub record Rendered (Object : Type 0) : Type 0 where
  pub kind : String
  pub name : String
  pub after : Option Object → Object

both_true : (a b : Bool) → (a && b) ≡ true → (a ≡ true) × (b ≡ true)
both_true a b h = ground arith

module _ {k : K8s} {W Object : Type 0} (engine : Engine k Object) (hm : HasMeta Object)
    (objects : Api W Object) (is_not_found : Error → Bool) (kind_of : Object → String)
    (stores : String → Store W Object) (M : IsMetaApi hm objects)
    (Q : IsQuietKinds hm is_not_found objects kind_of stores) (st : PilotSetReconcileState) where
  abbrev pub initial : TemplateData k → String → Result Object × TemplatedResourceEditor engine
  initial d yaml = get_initial_resource_value engine (new_editor engine d yaml)

  -- The template can be rendered and decoded, and its decoder fills an object of the template's kind
  -- and name as `r` says; what it makes of another object is left open. It marks none for deletion.
  pub record Renders (d : TemplateData k) (yaml : String) (r : Rendered Object) : Type 0 where
    pub obj : Object
    pub initial_lem : (initial d yaml).0 ≡ ok obj
    pub upsert :
        IsUpsert hm is_not_found objects
          (stores r.kind)
          M
          (OfKind kind_of r.kind)
          (Q.each r.kind)
          st
          rn_base
          r.name
          (editor_updater engine (initial d yaml).1)
          (editor_creator engine (initial d yaml).1)
          obj
          r.after
    pub is_dead-some :
        (old : Object)
        → is_dead (hm.meta old) ≡ false
        → is_dead (hm.meta (r.after (some old))) ≡ false
    pub is_dead-none : is_dead (hm.meta (r.after none)) ≡ false

  module _ (d : TemplateData k) (yaml : String) (r : Rendered Object) (h : Renders d yaml r) where
    abbrev pub key : NamespacedName
    key = child_key st r.name

    abbrev pub left : W → Object
    left w = (stores r.kind).stored (r.after ((stores r.kind).find w key))

    pub apply_from_template_lem :
        (w : W)
        → apply_from_template engine objects is_not_found st d yaml w
          ≡ (ok tt, (stores r.kind).put w (left w))
    unfolding apply_from_template lift with_new
    apply_from_template_lem w =
        bind-ok (λ v. ((initial d yaml).0, v)) _ (rw h.initial_lem)
        ∙ ap (λ (p : Result (Unit {0}) × Cell Object W). (p.0, p.1.world))
            (apply_or_create_lem hm is_not_found objects (stores r.kind) M (OfKind kind_of r.kind)
              (Q.each r.kind) st rn_base r.name (editor_updater engine (initial d yaml).1)
              (editor_creator engine (initial d yaml).1) h.obj r.after w h.upsert)

    key-after :
        (w : W) (o : Option Object)
        → (stores r.kind).find w key ≡ o
        → key_of (hm.meta (r.after o)) ≡ key
    key-after w none missing = rw (h.upsert.after-none, M.meta-set_meta) h.upsert.made_key
    key-after w (some old) found =
        h.upsert.key-after old ((Q.each r.kind).Of-find key w old found)
          ((Q.each r.kind).key-find key w old found)

    kind-after :
        (w : W) (o : Option Object) → (stores r.kind).find w key ≡ o → kind_of (r.after o) ≡ r.kind
    kind-after w none missing = rw h.upsert.after-none h.upsert.Of-made
    kind-after w (some old) found =
        h.upsert.Of-after old ((Q.each r.kind).Of-find key w old found)
          ((Q.each r.kind).key-find key w old found)

    is_dead-after :
        (w : W) (o : Option Object)
        → (stores r.kind).find w key ≡ o
        → is_dead (hm.meta (r.after o)) ≡ false
    is_dead-after w none missing = h.is_dead-none
    is_dead-after w (some old) found = h.is_dead-some old (Q.is_dead-find r.kind key w old found)

    abbrev placed : Bool → ObjectMeta → W → String → NamespacedName → Option Object
    placed b m w kind n =
        if r.kind == kind && same_key (key_of m) n
        then (if b then none else some (left w))
        else (stores kind).find w n

    pub find-left :
        (w : W) (kind : String) (n : NamespacedName)
        → (stores kind).find ((stores r.kind).put w (left w)) n ≡ (
            if r.kind == kind && same_key key n
            then some ((stores kind).stored (r.after ((stores kind).find w n)))
            else (stores kind).find w n)
    find-left w kind n =
        let o = (stores r.kind).find w key in
        Q.find-put r.kind w (left w) kind n (Q.kind-stored r.kind (r.after o) ∙ kind-after w o refl)
        ∙ ap (λ m. placed (is_dead m) m w kind n) (Q.meta-stored r.kind (r.after o))
        ∙ ap (λ b. placed b (hm.meta (r.after o)) w kind n) (is_dead-after w o refl)
        ∙ ap (λ m. if r.kind == kind && same_key m n then some (left w) else (stores kind).find w n)
            (key-after w o refl)
        ∙ elim (Bool-cases (r.kind == kind && same_key key n)) [
          | inl same ↦
              let (kinds, keys) = both_true (r.kind == kind) (same_key key n) same in
              rw (same, ← (eq_iff r.kind kind).0 kinds, ← (same_key_iff key n).0 keys) refl
          | inr other ↦ rw other refl
        ]

  pub data AllRender (d : TemplateData k) : List String → List (Rendered Object) → Type 0 where
    no_templates : AllRender d [] []
    template :
        {yaml : String} {r : Rendered Object} {yamls : List String} {rs : List (Rendered Object)}
        → Renders d yaml r
        → AllRender d yamls rs
        → AllRender d (yaml ∷ yamls) (r ∷ rs)

  -- What is under a kind and key once these templates were made into resources, one after the other.
  abbrev pub made_of :
      List (Rendered Object) → String → NamespacedName → Option Object → Option Object
  made_of [] kind n o = o
  made_of (r ∷ rs) kind n o = made_of rs kind n (
      if r.kind == kind && same_key (child_key st r.name) n
      then some ((stores kind).stored (r.after o))
      else o)

  pub for_each-apply_from_template :
      (d : TemplateData k) (yamls : List String) (rs : List (Rendered Object))
      → AllRender d yamls rs
      → (w : W)
      → ((for_each yamls (apply_from_template engine objects is_not_found st d) w).0 ≡ ok tt)
        × ((kind : String) (n : NamespacedName)
            → (stores kind).find
                (for_each yamls (apply_from_template engine objects is_not_found st d) w).1
                n
              ≡ made_of rs kind n ((stores kind).find w n))
  unfolding for_each ◌>>=◌
  for_each-apply_from_template d [] [] no_templates w = (refl, λ kind n. refl)
  for_each-apply_from_template d [] (r ∷ rs) none_left w = elim none_left [ ]
  for_each-apply_from_template d (yaml ∷ yamls) [] none_left w = elim none_left [ ]
  for_each-apply_from_template d (yaml ∷ yamls) (r ∷ rs) (template h all) w =
      let w' = (stores r.kind).put w (left d yaml r h w) in
      let (done, holds) = for_each-apply_from_template d yamls rs all w' in
      rw (apply_from_template_lem d yaml r h w)
        (done, λ kind n. holds kind n ∙ ap (made_of rs kind n) (find-left d yaml r h w kind n))

  -- What a write of an object keeps, the loop over the templates keeps.
  pub for_each-apply_from_template-kept :
      (I : W → Type 0)
      → ((w : W) (kind : String) (obj : Object) → I w → I ((stores kind).put w obj))
      → (d : TemplateData k) (yamls : List String) (rs : List (Rendered Object))
      → AllRender d yamls rs
      → (w : W) → I w
      → I (for_each yamls (apply_from_template engine objects is_not_found st d) w).1
  unfolding for_each ◌>>=◌
  for_each-apply_from_template-kept I put d [] [] no_templates w i = i
  for_each-apply_from_template-kept I put d [] (r ∷ rs) none_left w i = elim none_left [ ]
  for_each-apply_from_template-kept I put d (yaml ∷ yamls) [] none_left w i = elim none_left [ ]
  for_each-apply_from_template-kept I put d (yaml ∷ yamls) (r ∷ rs) (template h all) w i =
      rw (apply_from_template_lem d yaml r h w) (
        for_each-apply_from_template-kept I put d yamls rs all _
          (put w r.kind (left d yaml r h w) i))
