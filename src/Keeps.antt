-- ===== src/Keeps.antt =====
-- Predicates of the state that an action keeps, however it ends. They pass through the control flow of
-- the module Exec.
use gmos_k8s_operator.Prelude.{Bool, true, false, if◌then◌else◌}
use gmos_k8s_operator.Exec.{
  Error, Result, ok, err, panic, Exec, Cell, pure, raise, gets, continue, attempt, settle, with_new,
  on_resource, on_world, ◌>>=◌,
}

abbrev pub Keeps : {S A : Type 0} → (S → Type 0) → Exec S A → Type 0
Keeps {S = S} I m = (s : S) → I s → I (m s).1

module _ {S : Type 0} (I : S → Type 0) where
  pub pure-Keeps : {A : Type 0} (a : A) → Keeps I (pure a)
  unfolding pure
  pure-Keeps a s i = i

  pub raise-Keeps : (A : Type 0) (e : Error) → Keeps I (raise {A = A} e)
  unfolding raise
  raise-Keeps A e s i = i

  pub gets-Keeps : {A : Type 0} (f : S → A) → Keeps I (gets f)
  unfolding gets
  gets-Keeps f s i = i

  continue-Keeps :
      {A B : Type 0} (r : Result A) (f : A → Exec S B)
      → ((a : A) → Keeps I (f a))
      → Keeps I (continue r f)
  unfolding continue
  continue-Keeps (ok a) f k s i = k a s i
  continue-Keeps (err e) f k s i = i
  continue-Keeps panic f k s i = i

  pub bind-Keeps :
      {A B : Type 0} (m : Exec S A) (f : A → Exec S B)
      → Keeps I m
      → ((a : A) → Keeps I (f a))
      → Keeps I (m >>= f)
  unfolding ◌>>=◌
  bind-Keeps m f km kf s i = continue-Keeps (m s).0 f kf (m s).1 (km s i)

  settle-Keeps : (r : Result (Unit {0})) → Keeps I (settle r)
  unfolding settle
  settle-Keeps (ok a) s i = i
  settle-Keeps (err e) s i = i
  settle-Keeps panic s i = i

  pub attempt-Keeps : (m : Exec S (Unit {0})) → Keeps I m → Keeps I (attempt m)
  unfolding attempt
  attempt-Keeps m k s i = settle-Keeps (m s).0 (m s).1 (k s i)

  pub if-Keeps :
      {A : Type 0} (b : Bool) (m n : Exec S A)
      → Keeps I m
      → Keeps I n
      → Keeps I (if b then m else n)
  if-Keeps true m n km kn = km
  if-Keeps false m n km kn = kn

module _ {T W : Type 0} (I : W → Type 0) where
  -- The same of the world beside a pointer.
  abbrev pub OfWorld : Cell T W → Type 0
  OfWorld c = I c.world

  pub with_new-Keeps :
      {A : Type 0} (t : T) (m : Exec (Cell T W) A) → Keeps OfWorld m → Keeps I (with_new t m)
  unfolding with_new
  with_new-Keeps t m k w i = k (record { resource = t; world = w }) i

  pub on_resource-Keeps : {A : Type 0} (m : Exec T A) → Keeps OfWorld (on_resource m)
  unfolding on_resource
  on_resource-Keeps m c i = i

  pub on_world-Keeps : {A : Type 0} (m : Exec W A) → Keeps I m → Keeps OfWorld (on_world {T = T} m)
  unfolding on_world
  on_world-Keeps m k c i = k c.world i
