-- ===== src/Kube/Quiet.antt =====
-- A cluster in which nobody else acts and no call fails: what the API server documents of a get, a
-- create, an update and a delete, as named laws over a view of the cluster.
use gmos_k8s_operator.Prelude.{
  String, ◌≡◌, Option, none, some, Bool, true, false, ◌&&◌, ◌||◌, ◌↔◌, [], ◌∷◌, ◌==◌, eq_iff,
  eq_refl, arith, List, if◌then◌else◌,
}
use gmos_k8s_operator.Types.{ObjectMeta, NamespacedName}
use gmos_k8s_operator.Exec.{Error, ok, err, Cell}
use gmos_k8s_operator.Kube.{Api, HasMeta}

abbrev pub key_of : ObjectMeta → NamespacedName
key_of m = record { namespace = m.namespace; name = m.name }

abbrev pub same_key : NamespacedName → NamespacedName → Bool
same_key m n = m.namespace == n.namespace && m.name == n.name

abbrev pub no_items {ℓ} : {A : Type ℓ} → List A → Bool
no_items [] = true
no_items _ = false

-- Marked for deletion, and without a finalizer: the server drops such an object.
abbrev pub is_dead : ObjectMeta → Bool
is_dead m = elim m.deletion_timestamp [ none ↦ false | some _ ↦ no_items m.finalizers ]

abbrev pub claim : ObjectMeta → ObjectMeta → ObjectMeta
claim owner m = record m { controller = some owner.name }

abbrev pub cell : {T W : Type 0} → T → W → Cell T W
cell t w = record { resource = t; world = w }

-- The view of a cluster, what a write and a delete do to it, and what the server makes of an object
-- that it is sent.
pub record Store (W T : Type 0) : Type 0 where
  pub find : W → NamespacedName → Option T
  pub put : W → T → W
  pub drop : W → NamespacedName → W
  pub stored : T → T
  pub doomed : T → Option T
  pub absent : NamespacedName → Error

-- The client's accessors of metadata, and SetControllerReference on an object without an owner.
pub record IsMetaApi {W T : Type 0} (hm : HasMeta T) (api : Api W T) : Type 0 where
  pub meta-set_meta : (m : ObjectMeta) (t : T) → hm.meta (hm.set_meta m t) ≡ m
  pub get_name_lem : (t : T) → api.get_name t ≡ (hm.meta t).name
  pub set_name_lem :
      (n : String) (t : T) → api.set_name n t ≡ hm.set_meta (record (hm.meta t) { name = n }) t
  pub set_namespace_lem :
      (n : String) (t : T)
      → api.set_namespace n t ≡ hm.set_meta (record (hm.meta t) { namespace = n }) t
  pub set_controller_reference_lem :
      (owner : ObjectMeta) (t : T)
      → (hm.meta t).controller ≡ none
      → api.set_controller_reference owner t ≡ (ok tt, hm.set_meta (claim owner (hm.meta t)) t)

pub record IsQuiet {W T : Type 0} (hm : HasMeta T) (is_not_found : Error → Bool) (api : Api W T)
    (store : Store W T) : Type 0 where
  pub is_not_found-absent : (n : NamespacedName) → is_not_found (store.absent n) ≡ true
  pub get-some :
      (n : NamespacedName) (r : T) (w : W) (t : T)
      → store.find w n ≡ some t
      → api.get n (cell r w) ≡ (ok tt, cell t w)
  pub get-none :
      (n : NamespacedName) (r : T) (w : W)
      → store.find w n ≡ none
      → api.get n (cell r w) ≡ (err (store.absent n), cell r w)
  pub key-find :
      (n : NamespacedName) (w : W) (t : T) → store.find w n ≡ some t → key_of (hm.meta t) ≡ n
  pub create-none :
      (t : T) (w : W)
      → store.find w (key_of (hm.meta t)) ≡ none
      → api.create (cell t w) ≡ (ok tt, cell (store.stored t) (store.put w (store.stored t)))
  pub update-some :
      (t : T) (w : W) (old : T)
      → store.find w (key_of (hm.meta t)) ≡ some old
      → api.update (cell t w) ≡ (ok tt, cell (store.stored t) (store.put w (store.stored t)))
  pub delete-some :
      (t : T) (w : W) (old : T)
      → store.find w (key_of (hm.meta t)) ≡ some old
      → api.delete (cell t w) ≡ (ok tt, cell t (store.drop w (key_of (hm.meta t))))
  pub meta-stored : (t : T) → hm.meta (store.stored t) ≡ hm.meta t
  pub find-put :
      (w : W) (t : T) (n : NamespacedName)
      → store.find (store.put w t) n ≡ (
          if same_key (key_of (hm.meta t)) n
          then (if is_dead (hm.meta t) then none else some t)
          else store.find w n)
  -- the server holds no dead object
  pub is_dead-find :
      (n : NamespacedName) (w : W) (t : T) → store.find w n ≡ some t → is_dead (hm.meta t) ≡ false
  pub find-drop :
      (w : W) (m n : NamespacedName)
      → store.find (store.drop w m) n ≡ (
          if same_key m n
          then elim (store.find w n) [ none ↦ none | some t ↦ store.doomed t ]
          else store.find w n)

-- Objects with distinct keys that a namespace of the cluster holds.
abbrev pub has_key : {T : Type 0} → HasMeta T → NamespacedName → List T → Bool
has_key hm n [] = false
has_key hm n (t ∷ ts) = same_key (key_of (hm.meta t)) n || has_key hm n ts

abbrev pub IsListing : {W T : Type 0} → HasMeta T → Store W T → W → String → List T → Type 0
IsListing hm store w namespace [] = Unit
IsListing hm store w namespace (t ∷ ts) =
    (store.find w (key_of (hm.meta t)) ≡ some t)
    × ((hm.meta t).namespace ≡ namespace)
    × (has_key hm (key_of (hm.meta t)) ts ≡ false)
    × IsListing hm store w namespace ts

pub same_key_refl : (n : NamespacedName) → same_key n n ≡ true
same_key_refl n = rw (eq_refl n.namespace, eq_refl n.name)

pub same_key_iff : (m n : NamespacedName) → (same_key m n ≡ true) ↔ (m ≡ n)
same_key_iff m n = ground (arith, eq_iff m.namespace n.namespace, eq_iff m.name n.name)

pub same_key_comm : (m n : NamespacedName) → same_key m n ≡ same_key n m
same_key_comm m n = ground (
  arith,
  eq_iff m.namespace n.namespace,
  eq_iff m.name n.name,
  eq_iff n.namespace m.namespace,
  eq_iff n.name m.name,
)

pub same_key-name : (m n : NamespacedName) → same_key m n ≡ true → m.name ≡ n.name
same_key-name m n h = ground (arith, eq_iff m.name n.name)
