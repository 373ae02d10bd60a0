-- ===== src/ResourceName/Clashes.antt =====
-- Names of child resources and of handlers: which of them can be the same.
use Prim.Native.Char.{Char}
use Prim.Native.String.{[] as nil, ◌∷◌ as ◌⊳◌}
use text.Mathlib.TextLemmas.{
  append_assoc, append_cancel_left, append_cancel_right, cons-append, nil-append,
  head-eq_of_cons-eq, tail-eq_of_cons-eq,
}
use gmos_k8s_operator.Prelude.{String, ◌<>◌, ◌≡◌, ◌↔◌, refl, sym, ap, ◌∙◌, Bool, true, false, arith}
use gmos_k8s_operator.Types.{ObjectMeta}
use gmos_k8s_operator.FilePath.Split.{has_slash}
use gmos_k8s_operator.FilePath.{is_slash}
use gmos_k8s_operator.ResourceName.{
  rn_tokens, rn_collector_tokens, name_for, namespaced_name, namespaced_name_for,
}

head_is_slash : String → Bool
head_is_slash nil = false
head_is_slash (c ⊳ s) = is_slash c

first_is_slash : (c : Char) (s m n : String) → "/" <> m ≡ (c ⊳ s) <> n → is_slash c ≡ true
unfolding head_is_slash
first_is_slash c s m n h =
    sym (ap head_is_slash (sym (cons-append _ nil m) ∙ h ∙ cons-append c s n))

namespaced_name-inj :
    (s t m n : String)
    → has_slash s ≡ false
    → has_slash t ≡ false
    → namespaced_name s m ≡ namespaced_name t n
    → (s ≡ t) × (m ≡ n)
unfolding namespaced_name
namespaced_name-inj nil nil m n p q h =
    (refl, append_cancel_left _ m n (append_cancel_left _ _ _ h))
namespaced_name-inj nil (c ⊳ t) m n p q h =
    let starts = first_is_slash c t m ("/" <> n) (sym (nil-append _) ∙ h) in absurd (ground arith)
namespaced_name-inj (c ⊳ s) nil m n p q h =
    let starts = first_is_slash c s n ("/" <> m) (sym (nil-append _) ∙ sym h) in
    absurd (ground arith)
namespaced_name-inj (c ⊳ s) (d ⊳ t) m n p q h =
    let both = sym (cons-append c s ("/" <> m)) ∙ h ∙ cons-append d t ("/" <> n) in
    let (same, rest) =
      namespaced_name-inj s t m n (ground arith) (ground arith) (tail-eq_of_cons-eq both) in
    (ap (λ x. c ⊳ x) same ∙ ap (λ x. x ⊳ t) (head-eq_of_cons-eq both), rest)

-- Two resources whose namespaces have no slash, as Kubernetes' names have none, and that are filed
-- under the same text, have the same namespace and name.
namespaced_name_for-inj :
    (a b : ObjectMeta)
    → has_slash a.namespace ≡ false
    → has_slash b.namespace ≡ false
    → namespaced_name_for a ≡ namespaced_name_for b
    → (a.namespace ≡ b.namespace) × (a.name ≡ b.name)
unfolding namespaced_name_for
namespaced_name_for-inj a b p q h = namespaced_name-inj a.namespace b.namespace a.name b.name p q h

-- The token secret of one GlideinSet has the name of the collector's token secret of another exactly
-- if the first one's name is the other's with "-collector" behind it.
pub name_for-clash_iff :
    (a b : ObjectMeta)
    → (name_for rn_tokens a ≡ name_for rn_collector_tokens b) ↔ (a.name ≡ b.name <> "-collector")
unfolding name_for
name_for-clash_iff a b =
    let split_name = append_assoc b.name "-collector" "-tokens" in
    (
      λ h. append_cancel_right a.name (b.name <> "-collector") "-tokens" (h ∙ sym split_name),
      λ h. ap (λ s. s <> "-tokens") h ∙ split_name,
    )
