-- ===== src/Tests/Objects.antt =====
-- A cluster in memory of objects of several kinds, which may share a name.
use gmos_k8s_operator.Prelude.{
  String, ◌≡◌, refl, ap, ◌∙◌, Option, none, some, Bool, true, false, ◌&&◌, arith, ◌==◌, eq_iff,
  if◌then◌else◌,
}
use gmos_k8s_operator.Types.{Bytes, ObjectMeta, NamespacedName}
use gmos_k8s_operator.Exec.{Result, Cell, message, ok, err}
use gmos_k8s_operator.Kube.{Api, HasMeta}
use gmos_k8s_operator.Kube.Quiet.{
  Store, IsMetaApi, cell, key_of, same_key, same_key_iff, claim, is_dead,
}
use gmos_k8s_operator.Kube.Kinds.{IsQuietKinds}
use gmos_k8s_operator.Tests.Memory.{is_not_found}

pub record Object : Type 0 where
  pub kind : String
  pub meta : ObjectMeta
  pub content : Bytes

abbrev pub kind_of : Object → String
kind_of t = t.kind

abbrev pub object_meta : HasMeta Object
object_meta = record { meta = λ t. t.meta; set_meta = λ m t. record t { meta = m } }

abbrev pub Objects : Type 0
Objects = String → NamespacedName → Option Object

-- Only a live object under its own kind and key is there.
abbrev admit : String → NamespacedName → Option Object → Option Object
admit kind n none = none
admit kind n (some t) =
    if t.kind == kind && same_key (key_of t.meta) n
    then (if is_dead t.meta then none else some t)
    else none

abbrev pub object_store : String → Store Objects Object
object_store kind = record {
  find = λ w n. admit kind n (w kind n);
  put = λ w t other n. if t.kind == other && same_key (key_of t.meta) n then some t else w other n;
  drop = λ w m other n. if kind == other && same_key m n then none else w other n;
  stored = λ t. t;
  doomed = λ t. none;
  absent = λ n. message "NotFound";
}

abbrev held_as : Objects → Object → Option Object
held_as w t = (object_store t.kind).find w (key_of t.meta)

abbrev pub object_api : Api Objects Object
object_api = record {
  get = λ n c. elim ((object_store c.resource.kind).find c.world n) [
    | none ↦ (err (message "NotFound"), c)
    | some t ↦ (ok tt, record c { resource = t })
  ];
  create = λ c. elim (held_as c.world c.resource) [
    | none ↦ (ok tt, record c { world = (object_store c.resource.kind).put c.world c.resource })
    | some t ↦ (err (message "AlreadyExists"), c)
  ];
  update = λ c. elim (held_as c.world c.resource) [
    | none ↦ (err (message "NotFound"), c)
    | some t ↦ (ok tt, record c { world = (object_store c.resource.kind).put c.world c.resource })
  ];
  delete = λ c. elim (held_as c.world c.resource) [
    | none ↦ (err (message "NotFound"), c)
    | some t ↦ (
      ok tt,
      record c { world = (object_store c.resource.kind).drop c.world (key_of c.resource.meta) },
    )
  ];
  set_controller_reference = λ owner t. (ok tt, record t { meta = claim owner t.meta });
  get_name = λ t. t.meta.name;
  set_name = λ n t. record t { meta = record t.meta { name = n } };
  set_namespace = λ n t. record t { meta = record t.meta { namespace = n } };
}

pub object-IsMetaApi : IsMetaApi object_meta object_api
object-IsMetaApi = record {
  meta-set_meta = λ m t. refl;
  get_name_lem = λ t. refl;
  set_name_lem = λ n t. refl;
  set_namespace_lem = λ n t. refl;
  set_controller_reference_lem = λ owner t free. refl;
}

admit-key :
    (kind : String) (n : NamespacedName) (o : Option Object) (t : Object)
    → admit kind n o ≡ some t
    → key_of t.meta ≡ n
admit-key kind n none t h = cc
admit-key kind n (some u) t h = ground (arith, same_key_iff (key_of u.meta) n)

admit-kind :
    (kind : String) (n : NamespacedName) (o : Option Object) (t : Object)
    → admit kind n o ≡ some t
    → t.kind ≡ kind
admit-kind kind n none t h = cc
admit-kind kind n (some u) t h = ground (arith, eq_iff u.kind kind)

admit-live :
    (kind : String) (n : NamespacedName) (o : Option Object) (t : Object)
    → admit kind n o ≡ some t
    → is_dead t.meta ≡ false
admit-live kind n none t h = cc
admit-live kind n (some u) t h = ground arith

admit-if :
    (kind : String) (n : NamespacedName) (b : Bool) (t : Object) (o : Option Object)
    → (t.kind == kind && same_key (key_of t.meta) n) ≡ b
    → admit kind n (if b then some t else o)
      ≡ (if b then (if is_dead t.meta then none else some t) else admit kind n o)
admit-if kind n true t o h = rw h
admit-if kind n false t o h = refl

-- What is under a kind is under the kind of an object of that kind.
as_own :
    (kind : String) (t : Object) (n : NamespacedName) (w : Objects) (o : Option Object)
    → t.kind ≡ kind
    → (object_store kind).find w n ≡ o
    → (object_store t.kind).find w n ≡ o
as_own kind t n w o is h = ap (λ c. (object_store c).find w n) is ∙ h

abbrev got : Object → Objects → Option Object → Result (Unit {0}) × Cell Object Objects
got r w none = (err (message "NotFound"), cell r w)
got r w (some t) = (ok tt, cell t w)

get-held :
    (n : NamespacedName) (r : Object) (w : Objects) (o : Option Object)
    → (object_store r.kind).find w n ≡ o
    → object_api.get n (cell r w) ≡ got r w o
get-held n r w none h = rw h
get-held n r w (some t) h = rw h

create-free :
    (t : Object) (w : Objects)
    → held_as w t ≡ none
    → object_api.create (cell t w) ≡ (ok tt, cell t ((object_store t.kind).put w t))
create-free t w h = rw h

update-held :
    (t : Object) (w : Objects) (old : Object)
    → held_as w t ≡ some old
    → object_api.update (cell t w) ≡ (ok tt, cell t ((object_store t.kind).put w t))
update-held t w old h = rw h

pub object-IsQuietKinds : IsQuietKinds object_meta is_not_found object_api kind_of object_store
object-IsQuietKinds = record {
  each = λ kind. record {
    is_not_found-absent = λ n. refl;
    get-some = λ n r w t of found. get-held n r w (some t) (as_own kind r n w (some t) of found);
    get-none = λ n r w of missing. get-held n r w none (as_own kind r n w none of missing);
    key-find = λ n w t found. admit-key kind n (w kind n) t found;
    Of-find = λ n w t found. admit-kind kind n (w kind n) t found;
    create-none =
        λ t w of missing. create-free t w (as_own kind t (key_of t.meta) w none of missing);
    update-some = λ t w old of found.
        update-held t w old (as_own kind t (key_of t.meta) w (some old) of found);
  };
  meta-stored = λ kind t. refl;
  kind-stored = λ kind t. refl;
  find-put = λ kind w t other n is.
      rw (← is)
        (admit-if other n (t.kind == other && same_key (key_of t.meta) n) t (w other n) refl);
  is_dead-find = λ kind n w t found. admit-live kind n (w kind n) t found;
}
