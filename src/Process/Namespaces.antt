-- ===== src/Process/Namespaces.antt =====
-- cmd/main.go, getWatchNamespaces: the namespaces that the operator's cache is limited to.
use Prim.Native.Char.{Char}
use Prim.Native.String.{[] as nil, ◌∷◌ as ◌⊳◌}
use text.Mathlib.TextLemmas.{cons-append, nil-append}
use gmos_k8s_operator.Prelude.{
  String, ◌≡◌, ◌≢◌, refl, ap, ◌∙◌, Option, none, some, Bool, true, false, ◌||◌, List, [], ◌∷◌, inl,
  inr, arith, ◌==◌, Bool-cases, if◌then◌else◌,
}
use gmos_k8s_operator.Text.{
  push_first, join, is_char, is_char-eq, push_first-ne-nil, join-push_first, join-empty,
}
use gmos_k8s_operator.Dict
use gmos_k8s_operator.Dict.{Dict}
use gmos_k8s_operator.Exec.{Result, ok, err, message}

abbrev pub comma : Char
comma = ","

abbrev pub is_comma : Char → Bool
is_comma = is_char comma

-- strings.Split(s, ",")
unfoldable pub split_commas : String → List String
split_commas nil = "" ∷ []
split_commas (c ⊳ s) =
    let rest = split_commas s in if is_comma c then "" ∷ rest else push_first c rest

-- The loop over the parts; `cache.Config{}` holds nothing.
unfoldable pub add_namespaces : List String → Dict (Unit {0}) → Dict (Unit {0})
add_namespaces [] ns_map = ns_map
add_namespaces (ns ∷ nss) ns_map = add_namespaces nss (Dict.insert ns tt ns_map)

-- `env` is WATCH_NAMESPACE.
unfoldable pub get_watch_namespaces : Option String → Result (Dict (Unit {0}))
unfolding split_commas add_namespaces
get_watch_namespaces none = err (message "WATCH_NAMESPACE must be set")
get_watch_namespaces (some namespaces) = ok (add_namespaces (split_commas namespaces) [])

abbrev pub has_comma : String → Bool
has_comma nil = false
has_comma (c ⊳ s) = is_comma c || has_comma s

abbrev pub any_has_comma : List String → Bool
any_has_comma [] = false
any_has_comma (part ∷ parts) = has_comma part || any_has_comma parts

abbrev pub is_part : String → List String → Bool
is_part n [] = false
is_part n (part ∷ parts) = part == n || is_part n parts

has_key-add_namespaces :
    (n : String) (nss : List String) (d : Dict (Unit {0}))
    → Dict.has_key n (add_namespaces nss d) ≡ (is_part n nss || Dict.has_key n d)
unfolding add_namespaces
has_key-add_namespaces n [] d = refl
has_key-add_namespaces n (ns ∷ nss) d =
    ground
      (arith, has_key-add_namespaces n nss (Dict.insert ns tt d), Dict.has_key-insert n ns tt d)

or_empty : (n : String) (b : Bool) → (b || Dict.has_key {V = Unit {0}} n []) ≡ b
unfolding Dict.has_key Dict.lookup
or_empty n true = refl
or_empty n false = refl

any_has_comma-push_first :
    (c : Char) (parts : List String)
    → is_comma c ≡ false
    → any_has_comma (push_first c parts) ≡ any_has_comma parts
any_has_comma-push_first c [] h = rw h
any_has_comma-push_first c (part ∷ parts) h = rw h

any_has_comma-split : (s : String) → any_has_comma (split_commas s) ≡ false
unfolding split_commas
any_has_comma-split nil = refl
any_has_comma-split (c ⊳ s) = elim (Bool-cases (is_comma c)) [
  | inl comma ↦ rw comma (any_has_comma-split s)
  | inr other ↦ rw other (any_has_comma-push_first c (split_commas s) other ∙ any_has_comma-split s)
]

split-ne-nil : (s : String) → split_commas s ≢ []
unfolding split_commas
split-ne-nil nil h = cc
split-ne-nil (c ⊳ s) h = elim (Bool-cases (is_comma c)) [
  | inl yes_c ↦ cc (rw yes_c at h)
  | inr no_c ↦ push_first-ne-nil c (split_commas s) (rw no_c at h)
]

join-split : (s : String) → join (split_commas s) "," ≡ s
unfolding split_commas
join-split nil = refl
join-split (c ⊳ s) = elim (Bool-cases (is_comma c)) [
  | inl yes_c ↦ rw yes_c (
      join-empty (split_commas s) "," (split-ne-nil s)
      ∙ rw (is_char-eq comma c yes_c, join-split s)
          (cons-append comma "" s ∙ ap (λ t. comma ⊳ t) (nil-append s)))
  | inr no_c ↦ rw no_c (join-push_first c (split_commas s) "," ∙ ap (λ t. c ⊳ t) (join-split s))
]

-- Where WATCH_NAMESPACE is set, the operator watches exactly its comma-separated parts: none has a
-- comma, and joined by commas they are the text. Where it is not set, that is an error.
pub get_watch_namespaces_lem :
    (namespaces : String)
    → (watched : Dict (Unit {0})) × (parts : List String) × (get_watch_namespaces (some namespaces)
        ≡ ok watched)
      × ((n : String) → Dict.has_key n watched ≡ is_part n parts)
      × (join parts "," ≡ namespaces)
      × (any_has_comma parts ≡ false)
      × (get_watch_namespaces none ≡ err (message "WATCH_NAMESPACE must be set"))
unfolding get_watch_namespaces
get_watch_namespaces_lem namespaces =
    let parts = split_commas namespaces in
    (
      add_namespaces parts [],
      parts,
      refl,
      λ n. has_key-add_namespaces n parts [] ∙ or_empty n (is_part n parts),
      join-split namespaces,
      any_has_comma-split namespaces,
      refl,
    )
