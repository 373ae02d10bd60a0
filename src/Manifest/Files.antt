-- ===== src/Manifest/Files.antt =====
-- The data secret of a GlideinSet: the files of its directory in the clone.
use gmos_k8s_operator.Prelude.{
  String, ◌≡◌, refl, sym, ap, ◌∙◌, Option, none, some, Bool, true, false, not, ◌&&◌, ◌||◌, List, [],
  ◌∷◌, inl, inr, ◌==◌, eq_iff, Bool-cases, if◌then◌else◌,
}
use gmos_k8s_operator.Dict
use gmos_k8s_operator.Dict.{Dict}
use gmos_k8s_operator.Types.{Bytes, K8s, GlideinSet, PilotSetNamespaceConfig}
use gmos_k8s_operator.Host.{Host, DirEntry}
use gmos_k8s_operator.Exec.{Result, ok, err, panic, and_then}
use gmos_k8s_operator.Template.{DataSecretTemplate}
use gmos_k8s_operator.Manifest.{read_entries, read_data, make_data_secret_template}

-- A file of that name is listed.
abbrev pub is_file : String → List DirEntry → Bool
is_file n [] = false
is_file n (entry ∷ entries) = (not entry.is_dir && entry.name == n) || is_file n entries

abbrev pub content_of : Result Bytes → Option Bytes
content_of (ok text) = some text
content_of (err e) = none
content_of panic = none

and_then-ok :
    {A B : Type 0} (r : Result A) (f : A → Result B) {b : B}
    → and_then r f ≡ ok b
    → (a : A) × (r ≡ ok a) × (f a ≡ ok b)
unfolding and_then
and_then-ok (ok a) f h = (a, refl, h)
and_then-ok (err e) f h = absurd (cc)
and_then-ok panic f h = absurd (cc)

ok_inj : {A : Type 0} {a b : A} → ok a ≡ ok b → a ≡ b
ok_inj h = cc

module _ (host : Host) (repo src : String) where
  -- The file of that name in the directory, as it is read.
  abbrev pub file_at : String → Result Bytes
  file_at n = host.read_file (host.join_path (repo ∷ src ∷ n ∷ []))

  overlay_lem :
      (n name : String) (text : Bytes) (b : Bool) (o : Option Bytes)
      → file_at name ≡ ok text
      → (if b then content_of (file_at n) else (if name == n then some text else o))
        ≡ (if (not false && name == n) || b then content_of (file_at n) else o)
  overlay_lem n name text b o read = elim (Bool-cases (name == n)) [
    | inl same ↦
        let here : file_at n ≡ ok text = ap file_at (sym ((eq_iff name n).0 same)) ∙ read in
        rw (same, here) (either b)
    | inr other ↦ rw other
  ]
    where
      either : (c : Bool) → (if c then some text else some text) ≡ some text
      either true = refl
      either false = refl

  lookup-read_entries :
      (entries : List DirEntry) (files d : Dict Bytes)
      → read_entries host repo src entries d ≡ ok files
      → (n : String)
      → Dict.lookup n files
        ≡ (if is_file n entries then content_of (file_at n) else Dict.lookup n d)
  unfolding read_entries
  lookup-read_entries [] files d h n = ap (λ f. Dict.lookup n f) (ok_inj (sym h))
  lookup-read_entries (entry ∷ entries) files d h n =
      let (d', first, rest) =
        and_then-ok
          (if entry.is_dir
            then ok d
            else and_then (file_at entry.name) (λ text. ok (Dict.insert entry.name text d)))
          (read_entries host repo src entries) h in
      lookup-read_entries entries files d' rest n ∙ elim (Bool-cases entry.is_dir) [
        | inl dir ↦ let same : d ≡ d' = ok_inj (rw dir at first) in rw (dir, same)
        | inr file ↦
            let (text, read, wrote) =
              and_then-ok (file_at entry.name) (λ text. ok (Dict.insert entry.name text d))
                (rw file at first) in
            rw (file, ← ok_inj wrote, Dict.lookup-insert)
              (overlay_lem n entry.name text (is_file n entries) (Dict.lookup n d) read)
      ]

-- Where a GlideinSet's manifest is known and its directory can be listed, the data secret's template, if
-- it can be made, has the GlideinSet's name and namespace, and holds every file that is listed, under
-- its name and as it is read, and nothing else: a subdirectory is left out.
pub make_data_secret_template_lem :
    {k : K8s} (host : Host) (glidein_set : GlideinSet k) (manifest : PilotSetNamespaceConfig)
    (listing : List DirEntry) (template : DataSecretTemplate)
    → glidein_set.remote_manifest ≡ some manifest
    → host.read_dir (host.join_path (manifest.repo_path ∷ manifest.volume.src ∷ [])) ≡ ok listing
    → make_data_secret_template host glidein_set ≡ ok template
    → (template.name ≡ glidein_set.meta.name)
      × (template.namespace ≡ glidein_set.meta.namespace)
      × (files : Dict Bytes) × (template.content ≡ some files)
      × ((n : String)
          → Dict.lookup n files ≡ (
              if is_file n listing
              then content_of (file_at host manifest.repo_path manifest.volume.src n)
              else none))
unfolding make_data_secret_template read_data
make_data_secret_template_lem host glidein_set manifest listing template known listed made =
    let (files, read, wrote) =
      and_then-ok (read_data host manifest)
        (λ files. ok (record {
          name = glidein_set.meta.name;
          namespace = glidein_set.meta.namespace;
          content = some files;
        }))
        (rw known at made) in
    rw (← ok_inj wrote) (
      refl,
      refl,
      files,
      refl,
      λ n.
          lookup-read_entries host manifest.repo_path manifest.volume.src listing files []
            (rw (read_data, listed) at read) n
          ∙ rw Dict.lookup-nil,
    )
