-- ===== src/Tests/Memory.antt =====
-- A cluster in memory, of objects of one type: it keeps what the module Kube/Quiet asks of a cluster.
use gmos_k8s_operator.Prelude.{
  ◌≡◌, refl, Option, none, some, Bool, true, false, arith, ◌==◌, if◌then◌else◌,
}
use gmos_k8s_operator.Types.{ObjectMeta, NamespacedName}
use gmos_k8s_operator.Exec.{Error, message, ok, err}
use gmos_k8s_operator.Kube.{Api, HasMeta}
use gmos_k8s_operator.Kube.Quiet.{
  Store, IsMetaApi, IsQuiet, key_of, same_key, same_key_iff, claim, is_dead,
}

abbrev pub is_not_found : Error → Bool
is_not_found e = elim e [ message s ↦ s == "NotFound" | _ ↦ false ]

module _ {T : Type 0} (hm : HasMeta T) where
  abbrev pub Memory : Type 0
  Memory = NamespacedName → Option T

  -- Only a live object under its own key is there.
  abbrev pub admit : NamespacedName → Option T → Option T
  admit n none = none
  admit n (some t) =
      if same_key (key_of (hm.meta t)) n
      then (if is_dead (hm.meta t) then none else some t)
      else none

  abbrev pub memory_store : Store Memory T
  memory_store = record {
    find = λ w n. admit n (w n);
    put = λ w t n. if same_key (key_of (hm.meta t)) n then some t else w n;
    drop = λ w m n. if same_key m n then none else w n;
    stored = λ t. t;
    doomed = λ t. none;
    absent = λ n. message "NotFound";
  }

  abbrev pub memory_api : Api Memory T
  memory_api = record {
    get = λ n c. elim (memory_store.find c.world n) [
      | none ↦ (err (message "NotFound"), c)
      | some t ↦ (ok tt, record c { resource = t })
    ];
    create = λ c. elim (memory_store.find c.world (key_of (hm.meta c.resource))) [
      | none ↦ (ok tt, record c { world = memory_store.put c.world c.resource })
      | some t ↦ (err (message "AlreadyExists"), c)
    ];
    update = λ c. elim (memory_store.find c.world (key_of (hm.meta c.resource))) [
      | none ↦ (err (message "NotFound"), c)
      | some t ↦ (ok tt, record c { world = memory_store.put c.world c.resource })
    ];
    delete = λ c. elim (memory_store.find c.world (key_of (hm.meta c.resource))) [
      | none ↦ (err (message "NotFound"), c)
      | some t ↦
          (ok tt, record c { world = memory_store.drop c.world (key_of (hm.meta c.resource)) })
    ];
    set_controller_reference = λ owner t. (ok tt, hm.set_meta (claim owner (hm.meta t)) t);
    get_name = λ t. (hm.meta t).name;
    set_name = λ n t. hm.set_meta (record (hm.meta t) { name = n }) t;
    set_namespace = λ n t. hm.set_meta (record (hm.meta t) { namespace = n }) t;
  }

  pub memory-IsMetaApi :
      ((m : ObjectMeta) (t : T) → hm.meta (hm.set_meta m t) ≡ m) → IsMetaApi hm memory_api
  memory-IsMetaApi h = record {
    meta-set_meta = h;
    get_name_lem = λ t. refl;
    set_name_lem = λ n t. refl;
    set_namespace_lem = λ n t. refl;
    set_controller_reference_lem = λ owner t free. refl;
  }

  admit-key :
      (n : NamespacedName) (o : Option T) (t : T) → admit n o ≡ some t → key_of (hm.meta t) ≡ n
  admit-key n none t h = cc
  admit-key n (some u) t h = ground (arith, same_key_iff (key_of (hm.meta u)) n)

  admit-live :
      (n : NamespacedName) (o : Option T) (t : T) → admit n o ≡ some t → is_dead (hm.meta t) ≡ false
  admit-live n none t h = cc
  admit-live n (some u) t h = ground arith

  admit-if :
      (n : NamespacedName) (b : Bool) (t : T) (o : Option T)
      → same_key (key_of (hm.meta t)) n ≡ b
      → admit n (if b then some t else o)
        ≡ (if b then (if is_dead (hm.meta t) then none else some t) else admit n o)
  admit-if n true t o h = rw h
  admit-if n false t o h = refl

  admit-drop :
      (n : NamespacedName) (b : Bool) (o : Option T)
      → admit n (if b then none else o)
        ≡ (if b then elim (admit n o) [ none ↦ none | some t ↦ none ] else admit n o)
  admit-drop n false o = refl
  admit-drop n true o = ground arith

  pub memory-IsQuiet : IsQuiet hm is_not_found memory_api memory_store
  memory-IsQuiet = record {
    is_not_found-absent = λ n. refl;
    get-some = λ n r w t found. rw found;
    get-none = λ n r w missing. rw missing;
    key-find = λ n w t found. admit-key n (w n) t found;
    create-none = λ t w missing. rw missing;
    update-some = λ t w old found. rw found;
    delete-some = λ t w old found. rw found;
    meta-stored = λ t. refl;
    find-put = λ w t n. admit-if n (same_key (key_of (hm.meta t)) n) t (w n) refl;
    is_dead-find = λ n w t found. admit-live n (w n) t found;
    find-drop = λ w m n. admit-drop n (same_key m n) (w n);
  }
