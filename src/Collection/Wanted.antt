-- ===== src/Collection/Wanted.antt =====
-- What the entries of a collection's spec ask for, of which the last of a name counts.
use gmos_k8s_operator.Prelude.{
  ◌<>◌, ◌≡◌, refl, sym, ◌∙◌, ap, Bool, true, false, none, some, Option, List, [], ◌∷◌, arith,
  if◌then◌else◌,
}
use gmos_k8s_operator.Types.{
  K8s, ObjectMeta, NamespacedName, GlideinSet, GlideinSetSpec, GlideinSetCollection,
}
use gmos_k8s_operator.Kube.Quiet.{same_key, same_key_iff}
use gmos_k8s_operator.Schemas.{labels_for_pilot_set}

-- The key of the GlideinSet of an entry.
unfoldable pub entry_key : {k : K8s} → GlideinSetCollection k → GlideinSetSpec k → NamespacedName
entry_key pilot_set spec = record {
  namespace = pilot_set.meta.namespace;
  name = pilot_set.meta.name <> ("-" <> spec.name);
}

abbrev or_else {ℓ} : {A : Type ℓ} → Option A → Option A → Option A
or_else (some a) o = some a
or_else none o = o

-- The last entry of a name.
unfoldable pub last_entry :
    {k : K8s}
    → GlideinSetCollection k
    → NamespacedName
    → List (GlideinSetSpec k)
    → Option (GlideinSetSpec k)
last_entry pilot_set n [] = none
last_entry pilot_set n (spec ∷ specs) =
    or_else (last_entry pilot_set n specs)
      (if same_key (entry_key pilot_set spec) n then some spec else none)

-- What the spec of a GlideinSet is to be: the entry, polled for by the collection's manager, and with
-- the collector of the collection under its cluster-internal name.
unfoldable pub wanted_spec :
    {k : K8s} → GlideinSetCollection k → GlideinSetSpec k → GlideinSetSpec k
wanted_spec pilot_set spec = record spec {
  glidein_manager_url = pilot_set.spec.glidein_manager_url;
  local_collector_url =
      (pilot_set.meta.name <> "-collector")
      <> ("." <> (pilot_set.meta.namespace <> ".svc.cluster.local"));
}

-- The GlideinSet that an entry asks for, by what the cluster held: a new spec in the old object, or
-- a new object with the collection's labels and the collection as its controller.
unfoldable pub wanted :
    {k : K8s}
    → GlideinSet k
    → GlideinSetCollection k
    → GlideinSetSpec k
    → Option (GlideinSet k)
    → GlideinSet k
unfolding wanted_spec
wanted blank pilot_set spec (some old) = record old { spec = wanted_spec pilot_set spec }
wanted blank pilot_set spec none = record blank {
  meta = record blank.meta {
    name = (entry_key pilot_set spec).name;
    namespace = pilot_set.meta.namespace;
    labels = some (labels_for_pilot_set pilot_set.meta.name);
    controller = some pilot_set.meta.name;
  };
  spec = wanted_spec pilot_set spec;
}

-- &GlideinSet{} has no name, no owner and no deletion mark.
pub record IsBlank (m : ObjectMeta) : Type 0 where
  pub name_lem : m.name ≡ ""
  pub controller_lem : m.controller ≡ none
  pub deletion_timestamp_lem : m.deletion_timestamp ≡ none

module _ {k : K8s} (blank : GlideinSet k) (pilot_set : GlideinSetCollection k) where
  pub last_entry-key :
      (n : NamespacedName) (specs : List (GlideinSetSpec k)) (spec : GlideinSetSpec k)
      → last_entry pilot_set n specs ≡ some spec
      → entry_key pilot_set spec ≡ n
  unfolding last_entry
  last_entry-key n [] spec h = cc
  last_entry-key n (s ∷ specs) spec h =
      ground (arith, last_entry-key n specs spec, same_key_iff (entry_key pilot_set s) n)

  -- Of two entries with one key the later decides.
  pub wanted-wanted :
      (s t : GlideinSetSpec k) (o : Option (GlideinSet k))
      → entry_key pilot_set s ≡ entry_key pilot_set t
      → wanted blank pilot_set t (some (wanted blank pilot_set s o)) ≡ wanted blank pilot_set t o
  unfolding wanted
  wanted-wanted s t (some old) h = refl
  wanted-wanted s t none h = rw h

  -- What an entry, if there is one, makes of the object under its key.
  abbrev pub overlay : Option (GlideinSetSpec k) → Option (GlideinSet k) → Option (GlideinSet k)
  overlay none o = o
  overlay (some spec) o = some (wanted blank pilot_set spec o)

  overlay-or_else :
      (s : GlideinSetSpec k) (later : Option (GlideinSetSpec k)) (b : Bool)
      (o : Option (GlideinSet k))
      → ((t : GlideinSetSpec k)
          → later ≡ some t
          → b ≡ true
          → entry_key pilot_set s ≡ entry_key pilot_set t)
      → overlay later (if b then some (wanted blank pilot_set s o) else o)
        ≡ overlay (or_else later (if b then some s else none)) o
  overlay-or_else s none true o h = refl
  overlay-or_else s none false o h = refl
  overlay-or_else s (some t) true o h = ap some (wanted-wanted s t o (h t refl refl))
  overlay-or_else s (some t) false o h = refl

  pub overlay-last_entry :
      (s : GlideinSetSpec k) (specs : List (GlideinSetSpec k)) (n : NamespacedName)
      (o : Option (GlideinSet k))
      → overlay
          (last_entry pilot_set n specs)
          (if same_key (entry_key pilot_set s) n then some (wanted blank pilot_set s o) else o)
        ≡ overlay (last_entry pilot_set n (s ∷ specs)) o
  unfolding last_entry
  overlay-last_entry s specs n o =
      overlay-or_else s (last_entry pilot_set n specs) (same_key (entry_key pilot_set s) n) o
        λ t found same. (same_key_iff _ n).0 same ∙ sym (last_entry-key n specs t found)
