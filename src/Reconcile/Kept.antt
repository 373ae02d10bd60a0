-- ===== src/Reconcile/Kept.antt =====
-- What the frame of both `Reconcile` methods keeps, whatever the cluster answers.
use gmos_k8s_operator.Prelude.{
  Bool, ◌≡◌, refl, inl, inr, Option, none, some, not, Bool-cases, if◌then◌else◌,
}
use gmos_k8s_operator.Types.{NamespacedName}
use gmos_k8s_operator.Exec.{
  Error, Result, ok, err, panic, continue, settle, ◌>>=◌, Exec, Cell, pure, raise, gets, modify,
  attempt, on_resource, on_world,
}
use gmos_k8s_operator.Kube.{Api, HasMeta, FinalizerApi}
use gmos_k8s_operator.Keeps.{
  Keeps, OfWorld, pure-Keeps, raise-Keeps, gets-Keeps, bind-Keeps, if-Keeps, with_new-Keeps,
  on_resource-Keeps, on_world-Keeps,
}
use gmos_k8s_operator.Reconcile.{
  pilot_set_finalizer, change_meta, has_finalizer, ensure_finalizer, finish_deletion,
  reconcile_found, reconcile,
}

module _ {S T : Type 0} (api : Api S T) (is_not_found : Error → Bool) (fin : FinalizerApi)
    (hm : HasMeta T) (new : T) (I : S → Type 0)
    (get-Keeps : (n : NamespacedName) → Keeps (OfWorld {T = T} I) (api.get n))
    (update-Keeps : Keeps (OfWorld {T = T} I) api.update) where
  abbrev J : Cell T S → Type 0
  J = OfWorld I

  module _ (req : NamespacedName) (finalize work : T → Exec S (Unit {0}))
      (finalize-Keeps : (t : T) → Keeps I (finalize t)) where
    finish_deletion-Keeps : Keeps J (finish_deletion api is_not_found fin hm new req finalize)
    unfolding finish_deletion
    finish_deletion-Keeps = bind-Keeps J (gets (λ c. c)) _ (gets-Keeps J _) λ c.
        if-Keeps J (not (has_finalizer api is_not_found fin hm new c.resource)) _ _
          (pure-Keeps J tt)
          (bind-Keeps J (on_world (finalize c.resource)) _
            (on_world-Keeps I _ (finalize-Keeps c.resource))
            λ _. bind-Keeps J (api.get req) _ (get-Keeps req) λ _.
              bind-Keeps J (on_resource (modify _)) _ (on_resource-Keeps I _) λ _. update-Keeps)

    -- What holds of a resource that Get found, and of one that Update stored, holds of the resource
    -- that the work is done for.
    module _ (P : T → Type 0)
        (get_lem : (n : NamespacedName) (c : Cell T S)
          → (api.get n c).0 ≡ ok tt
          → P (api.get n c).1.resource)
        (add_finalizer_lem : (t : T)
          → P t
          → P (change_meta api is_not_found fin hm new (fin.add_finalizer pilot_set_finalizer) t))
        (update_lem : (c : Cell T S)
          → P c.resource
          → (api.update c).0 ≡ ok tt
          → P (api.update c).1.resource)
        (work-Keeps : (t : T) → P t → Keeps I (work t)) where
      -- The state in which an action ended, where `P` needs it to end in a value.
      Ends : Result (Unit {0}) → Cell T S → Type 0
      Ends r c = I c.world × (r ≡ ok tt → P c.resource)

      ensure_finalizer_lem :
          (c : Cell T S)
          → I c.world
          → P c.resource
          → Ends
              (ensure_finalizer api is_not_found fin hm new c).0
              (ensure_finalizer api is_not_found fin hm new c).1
      unfolding ensure_finalizer Ends on_resource modify gets pure ◌>>=◌ continue
      ensure_finalizer_lem c i p =
          elim (Bool-cases (has_finalizer api is_not_found fin hm new c.resource)) [
            | inl has ↦ rw has (i, λ _. p)
            | inr lacks ↦ rw lacks (update-Keeps _ i, update_lem _ (add_finalizer_lem c.resource p))
          ]

      deletion-Keeps :
          {A : Type 0} (o : Option A) (t : T)
          → P t
          → Keeps J (elim o [
            | some _ ↦ finish_deletion api is_not_found fin hm new req finalize
            | none ↦ on_world (work t)
          ])
      deletion-Keeps (some at) t p = finish_deletion-Keeps
      deletion-Keeps none t p = on_world-Keeps I (work t) (work-Keeps t p)

      abbrev with_finalizer : Unit {0} → Exec (Cell T S) (Unit {0})
      with_finalizer _ = do
        c ← gets (λ c. c)
        elim (hm.meta c.resource).deletion_timestamp [
          | some _ ↦ finish_deletion api is_not_found fin hm new req finalize
          | none ↦ on_world (work c.resource)
        ]

      with_finalizer-J :
          (r : Result (Unit {0})) (c : Cell T S) → Ends r c → J (continue r with_finalizer c).1
      unfolding Ends continue gets ◌>>=◌
      with_finalizer-J (ok tt) c (i, p) =
          deletion-Keeps (hm.meta c.resource).deletion_timestamp c.resource (p refl) c i
      with_finalizer-J (err e) c (i, p) = i
      with_finalizer-J panic c (i, p) = i

      abbrev found : Option Error → Exec (Cell T S) (Unit {0})
      found e = elim e [
        | some e ↦ if is_not_found e then pure tt else raise e
        | none ↦ reconcile_found api is_not_found fin hm new req finalize work
      ]

      found-J :
          (r : Result (Unit {0})) (c : Cell T S)
          → Ends r c
          → J (continue (settle r c).0 found (settle r c).1).1
      unfolding Ends continue settle reconcile_found ◌>>=◌
      found-J (ok tt) c (i, p) = with_finalizer-J _ _ (ensure_finalizer_lem c i (p refl))
      found-J (err e) c (i, p) =
          if-Keeps J (is_not_found e) _ _ (pure-Keeps J tt) (raise-Keeps J Unit e) c i
      found-J panic c (i, p) = i

      -- What Get, Update, the finalizing and the work keep, `Reconcile` keeps.
      pub reconcile-Keeps : Keeps I (reconcile api is_not_found fin hm new req finalize work)
      unfolding reconcile attempt Ends ◌>>=◌
      reconcile-Keeps =
          with_new-Keeps I new _
            λ c i. found-J (api.get req c).0 (api.get req c).1 (get-Keeps req c i, get_lem req c)
