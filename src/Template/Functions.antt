-- ===== src/Template/Functions.antt =====
-- formatFuncs of templated_resources_editor.go: the functions that the templates call.
use Prim.Native.Char.{Char}
use Prim.Native.String.{[] as nil, ◌∷◌ as ◌⊳◌}
use gmos_k8s_operator.Prelude.{
  ℕ, String, ◌<>◌, ◌≡◌, ◌≢◌, refl, ap, ◌∙◌, Bool, List, [], ◌∷◌, inl, inr, Bool-cases,
  if◌then◌else◌,
}
use gmos_k8s_operator.Text.{
  push_first, join, repeat, is_char, push_first-ne-nil, join-push_first, join-char,
}
use gmos_k8s_operator.Types.{Bytes, ℤ, pos, negsuc}
use gmos_k8s_operator.Exec.{Result, ok, panic}

pub record FormatFuncs (Value : Type 0) : Type 0 where
  pub to_yaml : Value → Result String
  pub nindent : ℤ → String → Result String
  pub base64 : Bytes → String

abbrev newline : Char
newline = "\n"

abbrev is_newline : Char → Bool
is_newline = is_char newline

-- strings.SplitAfter(input, "\n")
split_after : String → List String
split_after nil = "" ∷ []
split_after (c ⊳ s) =
    let rest = split_after s in if is_newline c then (c ⊳ "") ∷ rest else push_first c rest

-- strings.Repeat panics on a negative count.
unfoldable pub nindent : ℤ → String → Result String
unfolding split_after
nindent (pos indent_count) input = ok (join (split_after input) (repeat " " indent_count))
nindent (negsuc n) input = panic

-- The text with a margin behind each line's end.
unfoldable pub indented : String → String → String
indented margin nil = ""
indented margin (c ⊳ s) =
    let rest = indented margin s in if is_newline c then c ⊳ (margin <> rest) else c ⊳ rest

split_after-ne-nil : (s : String) → split_after s ≢ []
unfolding split_after
split_after-ne-nil nil h = cc
split_after-ne-nil (c ⊳ s) h = elim (Bool-cases (is_newline c)) [
  | inl yes_c ↦ cc (rw yes_c at h)
  | inr no_c ↦ push_first-ne-nil c (split_after s) (rw no_c at h)
]

join-split_after : (margin s : String) → join (split_after s) margin ≡ indented margin s
unfolding split_after indented
join-split_after margin nil = refl
join-split_after margin (c ⊳ s) = elim (Bool-cases (is_newline c)) [
  | inl yes_c ↦ rw yes_c (
      join-char c (split_after s) margin (split_after-ne-nil s)
      ∙ ap (λ t. c ⊳ (margin <> t)) (join-split_after margin s))
  | inr no_c ↦
      rw no_c
        (join-push_first c (split_after s) margin ∙ ap (λ t. c ⊳ t) (join-split_after margin s))
]

-- `nindent` puts that many spaces behind every line end of its input, also the last, and nothing
-- else; a negative count is a panic.
pub nindent_lem :
    (indent_count : ℕ) (input : String)
    → (nindent (pos indent_count) input ≡ ok (indented (repeat " " indent_count) input))
      × (nindent (negsuc indent_count) input ≡ panic)
unfolding nindent
nindent_lem indent_count input = (ap ok (join-split_after (repeat " " indent_count) input), refl)
