-- ===== src/ApiUtil/Upsert.antt =====
-- What the helpers of api_util.go do in a quiet cluster.
use gmos_k8s_operator.Prelude.{String, ◌≡◌, refl, ◌==◌, Bool, true, false, none, some, Option}
use gmos_k8s_operator.Types.{NamespacedName}
use gmos_k8s_operator.ResourceName.{ResourceName, name_for}
use gmos_k8s_operator.Exec.{Error, ok, err, ◌>>=◌, attempt}
use gmos_k8s_operator.Kube.{Api, HasMeta}
use gmos_k8s_operator.Kube.Quiet.{Store, IsMetaApi, IsQuiet, cell, key_of, claim}
use gmos_k8s_operator.Kube.Kinds.{IsQuietFor}
use gmos_k8s_operator.ApiUtil.{
  PilotSetReconcileState, ResourceUpdater, ResourceCreator, child_key, resolved_name,
  apply_update_to_resource, create_resource_if_not_exists, apply_or_create,
}

module _ {W T : Type 0} (hm : HasMeta T) (is_not_found : Error → Bool) (api : Api W T)
    (store : Store W T) (M : IsMetaApi hm api) (Q : IsQuiet hm is_not_found api store)
    (st : PilotSetReconcileState) (rn : ResourceName) where
  pub resolved_name-new :
      (r : T)
      → (hm.meta r).name ≡ ""
      → resolved_name api is_not_found st rn r ≡ name_for rn st.resource
  unfolding resolved_name
  resolved_name-new r h = rw (M.get_name_lem, h)

  pub resolved_name-own :
      (r : T)
      → ((hm.meta r).name == "") ≡ false
      → resolved_name api is_not_found st rn r ≡ (hm.meta r).name
  unfolding resolved_name
  resolved_name-own r h = rw (M.get_name_lem, h)

-- `name` is the child's: its own, if it has one, or the one made from the parent's. The objects are of
-- the kind that `Of` picks.
module _ {W T : Type 0} (hm : HasMeta T) (is_not_found : Error → Bool) (api : Api W T)
    (store : Store W T) (M : IsMetaApi hm api) (Of : T → Type 0)
    (Q : IsQuietFor hm is_not_found api store Of) (st : PilotSetReconcileState) (rn : ResourceName)
    (name : String) where
  -- The key of the child resource.
  abbrev pub child : NamespacedName
  child = child_key st name

  pub apply-some :
      (u : ResourceUpdater T) (r : T) (w : W) (old new : T)
      → resolved_name api is_not_found st rn r ≡ name
      → store.find w child ≡ some old
      → Of r
      → Of new
      → u.update_resource_value old ≡ (ok true, new)
      → key_of (hm.meta new) ≡ child
      → apply_update_to_resource api is_not_found st rn u (cell r w)
        ≡ (ok tt, cell (store.stored new) (store.put w (store.stored new)))
  unfolding apply_update_to_resource ◌>>=◌
  apply-some u r w old new named_so found of_r of_new changed kept =
      rw (named_so, Q.get-some child r w old of_r found, changed)
        (Q.update-some new w old of_new (rw kept found))

  pub apply-none :
      (u : ResourceUpdater T) (r : T) (w : W)
      → resolved_name api is_not_found st rn r ≡ name
      → store.find w child ≡ none
      → Of r
      → apply_update_to_resource api is_not_found st rn u (cell r w)
        ≡ (err (store.absent child), cell r w)
  unfolding apply_update_to_resource ◌>>=◌
  apply-none u r w named_so missing of_r = rw (named_so, Q.get-none child r w of_r missing)

  -- A child that is there is fetched and left as it is.
  pub create-some :
      (c : ResourceCreator T) (r : T) (w : W) (held : T)
      → resolved_name api is_not_found st rn r ≡ name
      → store.find w child ≡ some held
      → Of r
      → create_resource_if_not_exists api is_not_found st rn c (cell r w) ≡ (ok tt, cell held w)
  unfolding create_resource_if_not_exists ◌>>=◌
  create-some c r w held named_so found of_r = rw (named_so, Q.get-some child r w held of_r found)

  -- A new object with the child's name, as it is handed to the creator.
  abbrev pub named : T → T
  named r = api.set_namespace st.resource.namespace (api.set_name name r)

  abbrev pub claimed : T → T
  claimed t = hm.set_meta (claim st.resource (hm.meta t)) t

  pub create-none :
      (c : ResourceCreator T) (r : T) (w : W) (made : T)
      → resolved_name api is_not_found st rn r ≡ name
      → store.find w child ≡ none
      → Of r
      → c.set_resource_value st.resource (named r) ≡ (ok tt, made)
      → (hm.meta made).controller ≡ none
      → key_of (hm.meta made) ≡ child
      → Of (claimed made)
      → create_resource_if_not_exists api is_not_found st rn c (cell r w)
        ≡ (ok tt, cell (store.stored (claimed made)) (store.put w (store.stored (claimed made))))
  unfolding create_resource_if_not_exists ◌>>=◌
  create-none c r w made named_so missing of_r set free key of_made =
      rw
        (
          named_so,
          Q.get-none child r w of_r missing,
          Q.is_not_found-absent child,
          named_so,
          set,
          M.set_controller_reference_lem st.resource made free,
        )
        (Q.create-none (claimed made) w of_made (rw (M.meta-set_meta, key) missing))

  -- An updater and a creator that make `after o` of what the cluster holds under the child's key. Of
  -- another object they may make anything.
  pub record IsUpsert (u : ResourceUpdater T) (c : ResourceCreator T) (r : T) (after : Option T → T)
      : Type 0 where
    pub name_lem : resolved_name api is_not_found st rn r ≡ name
    pub Of-new : Of r
    pub update_lem :
        (old : T)
        → Of old
        → key_of (hm.meta old) ≡ child
        → u.update_resource_value old ≡ (ok true, after (some old))
    pub key-after :
        (old : T)
        → Of old
        → key_of (hm.meta old) ≡ child
        → key_of (hm.meta (after (some old))) ≡ child
    pub Of-after : (old : T) → Of old → key_of (hm.meta old) ≡ child → Of (after (some old))
    pub made : T
    pub create_lem : c.set_resource_value st.resource (named r) ≡ (ok tt, made)
    pub made_free : (hm.meta made).controller ≡ none
    pub made_key : key_of (hm.meta made) ≡ child
    pub Of-made : Of (claimed made)
    pub after-none : after none ≡ claimed made

  -- The object that the idiom leaves in the cluster.
  abbrev pub upserted : (Option T → T) → W → T
  upserted after w = store.stored (after (store.find w child))

  apply_or_create-at :
      (u : ResourceUpdater T) (c : ResourceCreator T) (r : T) (after : Option T → T) (w : W)
      (o : Option T)
      → store.find w child ≡ o
      → IsUpsert u c r after
      → apply_or_create api is_not_found st rn u c (cell r w)
        ≡ (ok tt, cell (store.stored (after o)) (store.put w (store.stored (after o))))
  unfolding apply_or_create ◌>>=◌ attempt
  apply_or_create-at u c r after w none missing h =
      rw (apply-none u r w h.name_lem missing h.Of-new, Q.is_not_found-absent child, h.after-none)
        (create-none c r w h.made h.name_lem missing h.Of-new h.create_lem h.made_free h.made_key
          h.Of-made)
  apply_or_create-at u c r after w (some old) found h =
      let of_old = Q.Of-find child w old found in
      let key_old = Q.key-find child w old found in
      rw
        (apply-some u r w old (after (some old)) h.name_lem found h.Of-new
          (h.Of-after old of_old key_old) (h.update_lem old of_old key_old)
          (h.key-after old of_old key_old))
        refl

  -- In a quiet cluster, to update a child resource and to create it if that says "not found" ends
  -- without an error, and puts what the updater makes of the object there, or what the creator
  -- makes of a new one, under the child's key, if neither fails or leaves the kind or that key. The child's
  -- name is its own, or the one made from its parent's name if it has none.
  pub apply_or_create_lem :
      (u : ResourceUpdater T) (c : ResourceCreator T) (r : T) (after : Option T → T) (w : W)
      → IsUpsert u c r after
      → apply_or_create api is_not_found st rn u c (cell r w)
        ≡ (ok tt, cell (upserted after w) (store.put w (upserted after w)))
  apply_or_create_lem u c r after w h = apply_or_create-at u c r after w (store.find w child) refl h
