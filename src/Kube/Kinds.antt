-- ===== src/Kube/Kinds.antt =====
-- A quiet cluster seen by one client for objects of every kind: a call goes by the kind of the object
-- that it is given, and objects of two kinds may share a name.
use gmos_k8s_operator.Prelude.{
  String, Bool, ◌≡◌, none, some, true, false, ◌&&◌, ◌==◌, if◌then◌else◌,
}
use gmos_k8s_operator.Types.{NamespacedName}
use gmos_k8s_operator.Exec.{Error, ok, err}
use gmos_k8s_operator.Kube.{Api, HasMeta}
use gmos_k8s_operator.Kube.Quiet.{Store, IsQuiet, cell, key_of, same_key, is_dead}

-- The calls for objects of one kind, which `Of` picks, over the view of that kind.
pub record IsQuietFor {W T : Type 0} (hm : HasMeta T) (is_not_found : Error → Bool) (api : Api W T)
    (store : Store W T) (Of : T → Type 0) : Type 0 where
  pub is_not_found-absent : (n : NamespacedName) → is_not_found (store.absent n) ≡ true
  pub get-some :
      (n : NamespacedName) (r : T) (w : W) (t : T)
      → Of r
      → store.find w n ≡ some t
      → api.get n (cell r w) ≡ (ok tt, cell t w)
  pub get-none :
      (n : NamespacedName) (r : T) (w : W)
      → Of r
      → store.find w n ≡ none
      → api.get n (cell r w) ≡ (err (store.absent n), cell r w)
  pub key-find :
      (n : NamespacedName) (w : W) (t : T) → store.find w n ≡ some t → key_of (hm.meta t) ≡ n
  pub Of-find : (n : NamespacedName) (w : W) (t : T) → store.find w n ≡ some t → Of t
  pub create-none :
      (t : T) (w : W)
      → Of t
      → store.find w (key_of (hm.meta t)) ≡ none
      → api.create (cell t w) ≡ (ok tt, cell (store.stored t) (store.put w (store.stored t)))
  pub update-some :
      (t : T) (w : W) (old : T)
      → Of t
      → store.find w (key_of (hm.meta t)) ≡ some old
      → api.update (cell t w) ≡ (ok tt, cell (store.stored t) (store.put w (store.stored t)))

-- A type of resources is a kind of its own.
abbrev pub Every : {T : Type 0} → T → Type 0
Every t = Unit

pub IsQuiet-IsQuietFor :
    {W T : Type 0} {hm : HasMeta T} {is_not_found : Error → Bool} {api : Api W T}
    {store : Store W T}
    → IsQuiet hm is_not_found api store
    → IsQuietFor hm is_not_found api store Every
IsQuiet-IsQuietFor Q = record {
  is_not_found-absent = Q.is_not_found-absent;
  get-some = λ n r w t of. Q.get-some n r w t;
  get-none = λ n r w of. Q.get-none n r w;
  key-find = Q.key-find;
  Of-find = λ n w t found. tt;
  create-none = λ t w of. Q.create-none t w;
  update-some = λ t w old of. Q.update-some t w old;
}

abbrev pub OfKind : {T : Type 0} → (T → String) → String → T → Type 0
OfKind kind_of kind t = kind_of t ≡ kind

-- The views of all kinds: a write of an object is seen under its kind and key only.
pub record IsQuietKinds {W T : Type 0} (hm : HasMeta T) (is_not_found : Error → Bool)
    (api : Api W T) (kind_of : T → String) (stores : String → Store W T) : Type 0 where
  pub each : (kind : String) → IsQuietFor hm is_not_found api (stores kind) (OfKind kind_of kind)
  pub meta-stored : (kind : String) (t : T) → hm.meta ((stores kind).stored t) ≡ hm.meta t
  pub kind-stored : (kind : String) (t : T) → kind_of ((stores kind).stored t) ≡ kind_of t
  pub find-put :
      (kind : String) (w : W) (t : T) (other : String) (n : NamespacedName)
      → kind_of t ≡ kind
      → (stores other).find ((stores kind).put w t) n ≡ (
          if kind == other && same_key (key_of (hm.meta t)) n
          then (if is_dead (hm.meta t) then none else some t)
          else (stores other).find w n)
  pub is_dead-find :
      (kind : String) (n : NamespacedName) (w : W) (t : T)
      → (stores kind).find w n ≡ some t
      → is_dead (hm.meta t) ≡ false
