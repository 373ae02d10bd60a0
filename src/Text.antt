-- ===== src/Text.antt =====
-- Go's strings package: cutting and joining texts, by which cmd/main.go reads namespaces and the
-- template functions indent YAML.
use Prim.Native.Char.{Char, code}
use Prim.Native.String.{◌∷◌ as ◌⊳◌}
use Prim.Native.Nat.{compare, Ordering}
use text.Mathlib.TextLemmas.{cons-append, nil-append}
use text.Mathlib.TextEquality.{Char-path}
use gmos_k8s_operator.Prelude.{
  ℕ, zero, suc, String, ◌<>◌, ◌≡◌, ◌≢◌, refl, ap, ◌∙◌, Bool, true, false, List, [], ◌∷◌, arith,
}

-- One character before the first part.
abbrev pub push_first : Char → List String → List String
push_first c [] = (c ⊳ "") ∷ []
push_first c (part ∷ parts) = (c ⊳ part) ∷ parts

-- strings.Join
abbrev pub join : List String → String → String
join [] sep = ""
join (part ∷ []) sep = part
join (part ∷ next ∷ parts) sep = part <> (sep <> join (next ∷ parts) sep)

-- strings.Repeat of a count that is not negative
abbrev pub repeat : String → ℕ → String
repeat s zero = ""
repeat s (suc n) = s <> repeat s n

abbrev pub is_char : Char → Char → Bool
is_char d c = elim (compare (code c) (code d)) [ Ordering.eq ↦ true | _ ↦ false ]

pub is_char-eq : (d c : Char) → is_char d c ≡ true → c ≡ d
is_char-eq d c h = Char-path c d (ground arith)

pub push_first-ne-nil : (c : Char) (parts : List String) → push_first c parts ≢ []
push_first-ne-nil c [] h = cc
push_first-ne-nil c (part ∷ parts) h = cc

pub join-push_first :
    (c : Char) (parts : List String) (sep : String)
    → join (push_first c parts) sep ≡ (c ⊳ join parts sep)
join-push_first c [] sep = refl
join-push_first c (part ∷ []) sep = refl
join-push_first c (part ∷ next ∷ parts) sep = cons-append c part _

-- A first part of one character or none.
pub join-char :
    (c : Char) (parts : List String) (sep : String)
    → parts ≢ []
    → join ((c ⊳ "") ∷ parts) sep ≡ (c ⊳ (sep <> join parts sep))
join-char c [] sep some_part = absurd (some_part refl)
join-char c (part ∷ parts) sep some_part = cons-append c "" _ ∙ ap (λ t. c ⊳ t) (nil-append _)

pub join-empty :
    (parts : List String) (sep : String)
    → parts ≢ []
    → join ("" ∷ parts) sep ≡ sep <> join parts sep
join-empty [] sep some_part = absurd (some_part refl)
join-empty (part ∷ parts) sep some_part = nil-append _
