-- ===== src/Reconcile/Finalizer.antt =====
-- The finalizer in both controllers, for live and for deleted resources.
use gmos_k8s_operator.Prelude.{
  String, ◌≡◌, ap, ◌∙◌, none, some, Bool, true, false, ◌||◌, List, [], ◌∷◌, ◌++◌, inl, inr, arith,
  ◌==◌, eq_refl, Bool-cases, if◌then◌else◌,
}
use gmos_k8s_operator.Types.{ObjectMeta, NamespacedName}
use gmos_k8s_operator.Exec.{
  Error, Result, ok, Exec, Cell, attempt, with_new, on_resource, on_world, ◌>>=◌, bind-ok,
  attempt-ok,
}
use gmos_k8s_operator.Kube.{Api, HasMeta, FinalizerApi}
use gmos_k8s_operator.Kube.Quiet.{
  Store, IsMetaApi, IsQuiet, cell, key_of, same_key, same_key_refl, is_dead, no_items,
}
use gmos_k8s_operator.Reconcile.{
  pilot_set_finalizer, has_finalizer, change_meta, ensure_finalizer, finish_deletion,
  reconcile_found, reconcile,
}

abbrev pub listed : String → List String → Bool
listed f [] = false
listed f (g ∷ gs) = g == f || listed f gs

abbrev pub without : String → List String → List String
without f [] = []
without f (g ∷ gs) = let rest = without f gs in if g == f then rest else g ∷ rest

-- What controllerutil documents of its finalizer functions.
pub record IsFinalizerApi (fin : FinalizerApi) : Type 0 where
  pub contains_lem :
      (f : String) (m : ObjectMeta) → fin.contains_finalizer f m ≡ listed f m.finalizers
  pub add_lem :
      (f : String) (m : ObjectMeta)
      → listed f m.finalizers ≡ false
      → fin.add_finalizer f m ≡ record m { finalizers = m.finalizers ++ (f ∷ []) }
  pub remove_lem :
      (f : String) (m : ObjectMeta)
      → fin.remove_finalizer f m ≡ record m { finalizers = without f m.finalizers }

listed-append_self : (f : String) (gs : List String) → listed f (gs ++ (f ∷ [])) ≡ true
listed-append_self f [] = rw (eq_refl f)
listed-append_self f (g ∷ gs) = ground (arith, listed-append_self f gs)

module _ {S T : Type 0} (hm : HasMeta T) (is_not_found : Error → Bool) (api : Api S T)
    (store : Store S T) (Q : IsQuiet hm is_not_found api store) (M : IsMetaApi hm api)
    (stored_lem : (t : T) → store.stored t ≡ t) (fin : FinalizerApi) (F : IsFinalizerApi fin)
    (new : T) (req : NamespacedName) (finalize work : T → Exec S (Unit {0})) (s : S) (t : T)
    (found : store.find s req ≡ some t) where
  -- The resource, once the finalizer is on it.
  abbrev marked : T
  marked =
      hm.set_meta
        (record (hm.meta t) { finalizers = (hm.meta t).finalizers ++ (pilot_set_finalizer ∷ []) }) t

  abbrev world_of : Result (Unit {0}) × Cell T S → Result (Unit {0}) × S
  world_of p = (p.0, p.1.world)

  reconcile-found :
      reconcile api is_not_found fin hm new req finalize work s
      ≡ world_of (reconcile_found api is_not_found fin hm new req finalize work (cell t s))
  unfolding reconcile with_new
  reconcile-found =
      ap world_of (
        bind-ok (attempt (api.get req)) _ (attempt-ok (api.get req) (Q.get-some req new s t found)))

  -- From the step that sees to the finalizer on.
  after_ensure-live :
      (t' : T) (s' : S)
      → ensure_finalizer api is_not_found fin hm new (cell t s) ≡ (ok tt, cell t' s')
      → (hm.meta t').deletion_timestamp ≡ none
      → reconcile api is_not_found fin hm new req finalize work s ≡ work t' s'
  unfolding reconcile_found on_world ◌>>=◌
  after_ensure-live t' s' ensured alive = reconcile-found ∙ rw (reconcile_found, ensured, alive)

  change-add :
      listed pilot_set_finalizer (hm.meta t).finalizers ≡ false
      → change_meta api is_not_found fin hm new (fin.add_finalizer pilot_set_finalizer) t ≡ marked
  unfolding change_meta
  change-add h = rw (change_meta, F.add_lem pilot_set_finalizer (hm.meta t) h)

  ensure-has :
      listed pilot_set_finalizer (hm.meta t).finalizers ≡ true
      → ensure_finalizer api is_not_found fin hm new (cell t s) ≡ (ok tt, cell t s)
  unfolding ensure_finalizer has_finalizer ◌>>=◌
  ensure-has h = rw (F.contains_lem, h)

  ensure-lacks :
      listed pilot_set_finalizer (hm.meta t).finalizers ≡ false
      → ensure_finalizer api is_not_found fin hm new (cell t s)
        ≡ (ok tt, cell marked (store.put s marked))
  unfolding ensure_finalizer has_finalizer on_resource ◌>>=◌
  ensure-lacks h =
      rw (F.contains_lem, h, change-add h)
        (Q.update-some marked s t (rw (M.meta-set_meta, Q.key-find req s t found) found)
          ∙ rw (stored_lem marked))

  -- What is found where an object was just put.
  find-put_here :
      (u : T) (w : S)
      → key_of (hm.meta u) ≡ req
      → store.find (store.put w u) req ≡ (if is_dead (hm.meta u) then none else some u)
  find-put_here u w h =
      Q.find-put w u req
      ∙ ap (λ b. if b then (if is_dead (hm.meta u) then none else some u) else store.find w req)
          (ap (λ n. same_key n req) h ∙ same_key_refl req)

  marked-live : (hm.meta t).deletion_timestamp ≡ none → is_dead (hm.meta marked) ≡ false
  marked-live alive = rw M.meta-set_meta (rw alive)

  find-marked :
      (hm.meta t).deletion_timestamp ≡ none → store.find (store.put s marked) req ≡ some marked
  find-marked alive =
      find-put_here marked s (ap key_of (M.meta-set_meta _ t) ∙ Q.key-find req s t found)
      ∙ ap (λ b. if b then none else some marked) (marked-live alive)

  -- The work on a live resource that has the finalizer.
  pub reconcile-listed :
      (hm.meta t).deletion_timestamp ≡ none
      → listed pilot_set_finalizer (hm.meta t).finalizers ≡ true
      → reconcile api is_not_found fin hm new req finalize work s ≡ work t s
  reconcile-listed alive has = after_ensure-live t s (ensure-has has) alive

  -- In a quiet cluster, which stores objects as it is sent them: a resource that is there and is
  -- not marked for deletion has the finalizer on it, in the cluster too, when the controller's
  -- work begins, and Reconcile ends as that work does.
  pub reconcile-live :
      (hm.meta t).deletion_timestamp ≡ none
      → (t' : T) × (s' : S) × (reconcile api is_not_found fin hm new req finalize work s
          ≡ work t' s')
        × (listed pilot_set_finalizer (hm.meta t').finalizers ≡ true)
        × (store.find s' req ≡ some t')
  reconcile-live alive = elim (Bool-cases (listed pilot_set_finalizer (hm.meta t).finalizers)) [
    | inl has ↦ (t, s, after_ensure-live t s (ensure-has has) alive, has, found)
    | inr lacks ↦ (
      marked,
      store.put s marked,
      after_ensure-live marked (store.put s marked) (ensure-lacks lacks) (rw M.meta-set_meta alive),
      rw M.meta-set_meta (listed-append_self pilot_set_finalizer (hm.meta t).finalizers),
      find-marked alive,
    )
  ]

  -- The resource without the finalizer.
  abbrev pub released : T
  released =
      hm.set_meta
        (record (hm.meta t) { finalizers = without pilot_set_finalizer (hm.meta t).finalizers }) t

  change-remove :
      change_meta api is_not_found fin hm new (fin.remove_finalizer pilot_set_finalizer) t
      ≡ released
  unfolding change_meta
  change-remove = rw (change_meta, F.remove_lem pilot_set_finalizer (hm.meta t))

  released-dead :
      {at : _}
      → (hm.meta t).deletion_timestamp ≡ some at
      → is_dead (hm.meta released) ≡ no_items (without pilot_set_finalizer (hm.meta t).finalizers)
  released-dead marked_at = rw M.meta-set_meta (rw marked_at)

  finish-released :
      (s' : S)
      → listed pilot_set_finalizer (hm.meta t).finalizers ≡ true
      → finalize t s ≡ (ok tt, s')
      → store.find s' req ≡ some t
      → finish_deletion api is_not_found fin hm new req finalize (cell t s)
        ≡ (ok tt, cell released (store.put s' released))
  unfolding finish_deletion has_finalizer on_resource on_world ◌>>=◌
  finish-released s' has done still =
      rw (F.contains_lem, has, done, Q.get-some req t s' t still, change-remove)
        (Q.update-some released s' t (rw (M.meta-set_meta, Q.key-find req s t found) still)
          ∙ rw (stored_lem released))

  -- In a quiet cluster, which stores objects as it is sent them: a resource that is marked for
  -- deletion and has the finalizer is finalized, and if that succeeds and leaves the resource as
  -- it was, it loses the finalizer, and is gone if that was its last one. The controller's work
  -- is not done.
  pub reconcile-deleted :
      (at : _) (s' : S)
      → (hm.meta t).deletion_timestamp ≡ some at
      → listed pilot_set_finalizer (hm.meta t).finalizers ≡ true
      → finalize t s ≡ (ok tt, s')
      → store.find s' req ≡ some t
      → (reconcile api is_not_found fin hm new req finalize work s ≡ (ok tt, store.put s' released))
        × (store.find (store.put s' released) req ≡ (
            if no_items (without pilot_set_finalizer (hm.meta t).finalizers)
            then none
            else some released))
  unfolding reconcile_found on_world ◌>>=◌
  reconcile-deleted at s' marked_at has done still = (
    reconcile-found
        ∙ rw (reconcile_found, ensure-has has, marked_at, finish-released s' has done still),
    find-put_here released s' (ap key_of (M.meta-set_meta _ t) ∙ Q.key-find req s t found)
        ∙ ap (λ b. if b then none else some released) (released-dead marked_at),
  )
