-- ===== src/FilePath/Split.antt =====
-- What path.Split promises.
use Prim.Native.Char.{Char}
use Prim.Native.String.{[] as nil, ◌∷◌ as ◌⊳◌}
use text.Mathlib.TextLemmas.{cons-append, nil-append, cons≢nil}
use gmos_k8s_operator.Prelude.{
  String, ◌<>◌, ◌≡◌, refl, ap, ◌∙◌, Bool, true, false, ◌||◌, inl, inr, Bool-cases, ◌==◌, eq_iff,
}
use gmos_k8s_operator.FilePath.{is_slash, push, split}

abbrev pub has_slash : String → Bool
has_slash nil = false
has_slash (c ⊳ s) = is_slash c || has_slash s

-- The empty text, or one that ends in a slash.
abbrev pub is_dir : String → Bool
is_dir nil = true
is_dir (c ⊳ nil) = is_slash c
is_dir (c ⊳ d ⊳ s) = is_dir (d ⊳ s)

record IsSplit (path : String) (parts : String × String) : Type 0 where
  joins : parts.0 <> parts.1 ≡ path
  cut : has_slash parts.1 ≡ false
  dir : is_dir parts.0 ≡ true

push-IsSplit_dir :
    (c d : Char) (dir path file : String)
    → IsSplit path (d ⊳ dir, file)
    → IsSplit (c ⊳ path) (c ⊳ d ⊳ dir, file)
push-IsSplit_dir c d dir path file h = record {
  joins = cons-append c (d ⊳ dir) file ∙ ap (λ s. c ⊳ s) h.joins;
  cut = h.cut;
  dir = h.dir;
}

push-IsSplit_file :
    (c : Char) (path file : String)
    → IsSplit path ("", file)
    → IsSplit (c ⊳ path) (push c path ("", file))
push-IsSplit_file c path file h = elim (Bool-cases (is_slash c)) [
  | inl slash ↦
      rw slash (record {
        joins = cons-append c "" file ∙ ap (λ s. c ⊳ s) h.joins;
        cut = h.cut;
        dir = slash;
      })
  | inr other ↦ rw other (record {
    joins = nil-append _ ∙ ap (λ s. c ⊳ s) (rw nil-append at h.joins);
    cut = rw other h.cut;
    dir = refl;
  })
]

cons-eq-nil : (c : Char) (s : String) → ((c ⊳ s) == "") ≡ false
cons-eq-nil c s = elim (Bool-cases ((c ⊳ s) == "")) [
  | inl same ↦ absurd (cons≢nil ((eq_iff (c ⊳ s) "").0 same))
  | inr differ ↦ differ
]

push-IsSplit :
    (c : Char) (path dir file : String)
    → IsSplit path (dir, file)
    → IsSplit (c ⊳ path) (push c path (dir, file))
push-IsSplit c path nil file h = push-IsSplit_file c path file h
push-IsSplit c path (d ⊳ dir) file h = rw (cons-eq-nil d dir) (push-IsSplit_dir c d dir path file h)

split-IsSplit : (path : String) → IsSplit path (split path)
unfolding split
split-IsSplit nil = record { joins = refl; cut = refl; dir = refl }
split-IsSplit (c ⊳ path) = push-IsSplit c path (split path).0 (split path).1 (split-IsSplit path)

-- Splitting a path loses nothing, the file part has no slash, and the directory part is empty or
-- ends in a slash.
pub split_lem :
    (path : String)
    → ((split path).0 <> (split path).1 ≡ path)
      × (has_slash (split path).1 ≡ false)
      × (is_dir (split path).0 ≡ true)
split_lem path = let h = split-IsSplit path in (h.joins, h.cut, h.dir)
