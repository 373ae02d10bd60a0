-- ===== src/Exec.antt =====
-- Go's errors and control flow: a function that returns an `error` is an action on a state that
-- ends in a value or in an error, or that does not return. What was written before stays written.
use gmos_k8s_operator.Prelude.{◌≡◌, refl, sym, ◌∙◌, String, Option, none, some, List, [], ◌∷◌}

-- `external` is an error made by code outside the repository, `message` one of `errors.New` and
-- `fmt.Errorf`, `joined` one of `errors.Join`.
mutual
  pub data Error : Type 0 where
    external : String → Error
    message : String → Error
    joined : Errors → Error

  pub data Errors : Type 0 where
    nil : Errors
    cons : Error → Errors → Errors

to_errors : List Error → Errors
to_errors [] = nil
to_errors (e ∷ es) = cons e (to_errors es)

-- errors.Join over errors that are not nil: nil if there are none
unfoldable pub join_all : List Error → Option Error
unfolding to_errors
join_all [] = none
join_all (e ∷ es) = some (joined (cons e (to_errors es)))

-- errors.Join(a, b), which drops the nil ones
unfoldable pub join : Option Error → Option Error → Option Error
unfolding join_all
join none none = none
join (some a) none = join_all (a ∷ [])
join none (some b) = join_all (b ∷ [])
join (some a) (some b) = join_all (a ∷ b ∷ [])

-- `panic` is an action that does not come back to its caller: a run-time panic, or a wait for ever.
pub data Result {ℓ} (A : Type ℓ) : Type ℓ where
  ok : A → Result A
  err : Error → Result A
  panic : Result A

-- v, err := r; if err != nil { return err }, where no state is involved
unfoldable pub and_then {ℓ κ} : {A : Type ℓ} {B : Type κ} → Result A → (A → Result B) → Result B
and_then (ok a) f = f a
and_then (err e) f = err e
and_then panic f = panic

abbrev pub Exec {ℓ} : Type ℓ → Type ℓ → Type ℓ
Exec S A = S → Result A × S

module _ {ℓ} {S A : Type ℓ} where
  unfoldable pub pure : A → Exec S A
  pure a s = (ok a, s)

  unfoldable pub raise : Error → Exec S A
  raise e s = (err e, s)

  unfoldable pub crash : Exec S A
  crash s = (panic, s)

  unfoldable pub lift : Result A → Exec S A
  lift r s = (r, s)

  unfoldable pub gets : (S → A) → Exec S A
  gets f s = (ok (f s), s)

unfoldable pub modify : {S : Type 0} → (S → S) → Exec S (Unit {0})
modify f s = (ok tt, f s)

-- return err, where err may be nil
unfoldable pub check : {S : Type 0} → Option Error → Exec S (Unit {0})
unfolding pure raise
check none = pure tt
check (some e) = raise e

module _ {ℓ} {S A B : Type ℓ} where
  unfoldable pub continue : Result A → (A → Exec S B) → Exec S B
  continue (ok a) f s = f a s
  continue (err e) f s = (err e, s)
  continue panic f s = (panic, s)

  infixl 10 ◌>>=◌ ◌>>◌
  unfoldable pub ◌>>=◌ : Exec S A → (A → Exec S B) → Exec S B
  unfolding pure raise crash lift gets modify check continue
  ◌>>=◌ m f s = let (r, s') = m s in continue r f s'

  abbrev pub ◌>>◌ : Exec S A → Exec S B → Exec S B
  m >> n = m >>= λ _. n

-- How an action ended.
pub data Ended {ℓ} {S A : Type ℓ} (p : Result A × S) : Type ℓ where
  returned : (a : A) (s : S) → p ≡ (ok a, s) → Ended p
  failed : (e : Error) (s : S) → p ≡ (err e, s) → Ended p
  crashed : (s : S) → p ≡ (panic, s) → Ended p

pub ended {ℓ} : {S A : Type ℓ} (p : Result A × S) → Ended p
ended (ok a, s) = returned a s refl
ended (err e, s) = failed e s refl
ended (panic, s) = crashed s refl

-- A step whose end is known.
module _ {ℓ} {S A B : Type ℓ} (m : Exec S A) (f : A → Exec S B) {s s' : S} where
  pub bind-ok : {a : A} → m s ≡ (ok a, s') → (m >>= f) s ≡ f a s'
  unfolding ◌>>=◌
  bind-ok h = rw h

  pub bind-err : {e : Error} → m s ≡ (err e, s') → (m >>= f) s ≡ (err e, s')
  unfolding ◌>>=◌
  bind-err h = rw h

  pub bind-panic : m s ≡ (panic, s') → (m >>= f) s ≡ (panic, s')
  unfolding ◌>>=◌
  bind-panic h = rw h

module _ {S A B : Type 0} where
  -- What an action that ends in a value did first.
  pub bind-eq-ok :
      (m : Exec S A) (f : A → Exec S B) (s : S) {b : B} {s' : S}
      → (m >>= f) s ≡ (ok b, s')
      → (a : A) × (t : S) × (m s ≡ (ok a, t)) × (f a t ≡ (ok b, s'))
  bind-eq-ok m f s h = elim (ended (m s)) [
    | returned a t p ↦ (a, t, p, sym (bind-ok m f p) ∙ h)
    | failed e t p ↦ absurd (cc (bind-err m f p))
    | crashed t p ↦ absurd (cc (bind-panic m f p))
  ]

module _ {S : Type 0} where
  unfoldable pub settle : Result (Unit {0}) → Exec S (Option Error)
  settle (ok _) s = (ok none, s)
  settle (err e) s = (ok (some e), s)
  settle panic s = (panic, s)

  -- err := m(...), where the caller looks at err itself
  unfoldable pub attempt : Exec S (Unit {0}) → Exec S (Option Error)
  unfolding settle
  attempt m s = let (r, s') = m s in settle r s'

  -- for _, x := range xs { ... } whose body may return an error
  unfoldable pub for_each : {A : Type 0} → List A → (A → Exec S (Unit {0})) → Exec S (Unit {0})
  unfolding ◌>>=◌
  for_each [] f = pure tt
  for_each (x ∷ xs) f = f x >>= λ _. for_each xs f

module _ {S : Type 0} (m : Exec S (Unit {0})) {s s' : S} where
  pub attempt-ok : m s ≡ (ok tt, s') → attempt m s ≡ (ok none, s')
  unfolding attempt
  attempt-ok h = rw h

  pub attempt-err : {e : Error} → m s ≡ (err e, s') → attempt m s ≡ (ok (some e), s')
  unfolding attempt
  attempt-err h = rw h

module _ {S A : Type 0} where
  keep_result : Result A → Exec S (Result A)
  keep_result (ok a) s = (ok (ok a), s)
  keep_result (err e) s = (ok (err e), s)
  keep_result panic s = (panic, s)

  -- v, err := m(...), where the caller looks at err itself
  unfoldable pub outcome : Exec S A → Exec S (Result A)
  unfolding keep_result
  outcome m s = let (r, s') = m s in keep_result r s'

  go_on : Result A → (A → Exec S (Unit {0})) → Exec S (Unit {0})
  go_on (ok a) f s = f a s
  go_on (err e) f s = (ok tt, s)
  go_on panic f s = (panic, s)

  -- v, err := m(...); if err != nil { log.Error(err, ...); return }: the error is dropped
  unfoldable pub if_ok : Exec S A → (A → Exec S (Unit {0})) → Exec S (Unit {0})
  unfolding go_on
  if_ok m f s = let (r, s') = m s in go_on r f s'

module _ {S A : Type 0} (m : Exec S A) (f : A → Exec S (Unit {0})) {s s' : S} where
  pub if_ok-ok : {a : A} → m s ≡ (ok a, s') → if_ok m f s ≡ f a s'
  unfolding if_ok
  if_ok-ok h = rw h

  pub if_ok-err : {e : Error} → m s ≡ (err e, s') → if_ok m f s ≡ (ok tt, s')
  unfolding if_ok
  if_ok-err h = rw h

  pub if_ok-panic : m s ≡ (panic, s') → if_ok m f s ≡ (panic, s')
  unfolding if_ok
  if_ok-panic h = rw h

-- A pointer to a resource, beside the rest of the world.
pub record Cell (T W : Type 0) : Type 0 where
  pub resource : T
  pub world : W

module _ {T W A : Type 0} where
  -- `m` on a new object: its pointer is dropped at the end
  unfoldable pub with_new : T → Exec (Cell T W) A → Exec W A
  with_new t m w = let (r, c) = m (record { resource = t; world = w }) in (r, c.world)

  pub with_new_lem :
      (m : Exec (Cell T W) A) {t t' : T} {w w' : W} {r : Result A}
      → m (record { resource = t; world = w }) ≡ (r, record { resource = t'; world = w' })
      → with_new t m w ≡ (r, w')
  unfolding with_new
  with_new_lem m h = rw h

  -- an action on the object alone
  unfoldable pub on_resource : Exec T A → Exec (Cell T W) A
  on_resource m c = let (r, t) = m c.resource in (r, record c { resource = t })

  -- an action on the world alone
  unfoldable pub on_world : Exec W A → Exec (Cell T W) A
  on_world m c = let (r, w) = m c.world in (r, record c { world = w })
