-- ===== src/Collection/Upserts.antt =====
-- The first loop of recoincileGlideinSets in a quiet cluster: the entries of the spec.
use gmos_k8s_operator.Prelude.{
  ◌<>◌, ◌≡◌, refl, sym, ◌∙◌, ap, false, none, some, Option, List, [], ◌∷◌, inl, inr, Bool-cases,
  if◌then◌else◌,
}
use gmos_k8s_operator.Types.{K8s, NamespacedName, GlideinSet, GlideinSetSpec, GlideinSetCollection}
use gmos_k8s_operator.ResourceName.{name_for}
use gmos_k8s_operator.Exec.{
  Exec, Cell, ok, attempt, attempt-ok, attempt-err, bind-ok, for_each, ◌>>=◌, with_new,
  with_new_lem,
}
use gmos_k8s_operator.Kube.{Kube, glidein_set_meta}
use gmos_k8s_operator.Kube.Quiet.{
  Store, IsMetaApi, IsQuiet, key_of, same_key, is_dead, same_key_iff,
}
use gmos_k8s_operator.Kube.Kinds.{Every, IsQuiet-IsQuietFor}
use gmos_k8s_operator.Schemas.{labels_for_pilot_set, glidein_set_creator, glidein_set_updater}
use gmos_k8s_operator.ApiUtil.{apply_update_to_resource, create_resource_if_not_exists}
use gmos_k8s_operator.ApiUtil.Upsert.{
  resolved_name-new, IsUpsert, apply-some, apply-none, create-none,
}
use gmos_k8s_operator.Collection.{glidein_set_spec, local_collector_url, apply_glidein_set}
use gmos_k8s_operator.Collection.Wanted.{
  entry_key, last_entry, wanted, wanted_spec, IsBlank, overlay, overlay-last_entry,
}

module _ {k : K8s} (kube : Kube k) (store : Store kube.Cluster (GlideinSet k))
    (M : IsMetaApi (glidein_set_meta k) kube.glidein_sets)
    (Q : IsQuiet (glidein_set_meta k) kube.is_not_found kube.glidein_sets store)
    (B : IsBlank kube.new_glidein_set.meta) (stored_lem : (g : GlideinSet k) → store.stored g ≡ g)
    (pilot_set : GlideinSetCollection k) where
  abbrev want : GlideinSetSpec k → Option (GlideinSet k) → GlideinSet k
  want = wanted kube.new_glidein_set pilot_set

  module _ (spec : GlideinSetSpec k) where
    abbrev named_blank : GlideinSet k
    named_blank = record kube.new_glidein_set {
      meta = record kube.new_glidein_set.meta {
        name = name_for ("-" <> spec.name) pilot_set.meta;
        namespace = pilot_set.meta.namespace;
      };
    }

    named-blank :
        kube.glidein_sets.set_namespace pilot_set.meta.namespace (
          kube.glidein_sets.set_name
            (name_for ("-" <> spec.name) pilot_set.meta)
            kube.new_glidein_set)
        ≡ named_blank
    named-blank =
        M.set_namespace_lem pilot_set.meta.namespace _
        ∙ ap
            (λ (g : GlideinSet k). record g {
              meta = record g.meta { namespace = pilot_set.meta.namespace };
            })
            (M.set_name_lem (name_for ("-" <> spec.name) pilot_set.meta) kube.new_glidein_set)

    want-IsUpsert :
        IsUpsert
          (glidein_set_meta k)
          kube.is_not_found
          kube.glidein_sets
          store
          M
          Every
          (IsQuiet-IsQuietFor Q)
          (record { resource = pilot_set.meta })
          ("-" <> spec.name)
          (name_for ("-" <> spec.name) pilot_set.meta)
          (glidein_set_updater k (glidein_set_spec pilot_set spec))
          (glidein_set_creator k (glidein_set_spec pilot_set spec))
          kube.new_glidein_set
          (want spec)
    unfolding wanted wanted_spec glidein_set_spec local_collector_url glidein_set_updater
        glidein_set_creator name_for entry_key
    want-IsUpsert = record {
      name_lem =
          resolved_name-new (glidein_set_meta k) kube.is_not_found kube.glidein_sets store M Q
            (record { resource = pilot_set.meta }) ("-" <> spec.name) kube.new_glidein_set
            B.name_lem;
      Of-new = tt;
      update_lem = λ old of key. refl;
      key-after = λ old of key. key;
      Of-after = λ old of key. tt;
      made = record kube.new_glidein_set {
        meta = record kube.new_glidein_set.meta {
          name = (entry_key pilot_set spec).name;
          namespace = pilot_set.meta.namespace;
          labels = some (labels_for_pilot_set pilot_set.meta.name);
        };
        spec = glidein_set_spec pilot_set spec;
      };
      create_lem =
          ap
            (λ (g : GlideinSet k).
              (glidein_set_creator k (glidein_set_spec pilot_set spec)).set_resource_value
                pilot_set.meta g)
            named-blank;
      made_free = B.controller_lem;
      made_key = refl;
      Of-made = tt;
      after-none = refl;
    }

    abbrev updating : Exec (Cell (GlideinSet k) kube.Cluster) (Unit {0})
    updating =
        apply_update_to_resource kube.glidein_sets kube.is_not_found
          (record { resource = pilot_set.meta }) ("-" <> spec.name)
          (glidein_set_updater k (glidein_set_spec pilot_set spec))

    abbrev creating : Exec (Cell (GlideinSet k) kube.Cluster) (Unit {0})
    creating =
        create_resource_if_not_exists kube.glidein_sets kube.is_not_found
          (record { resource = pilot_set.meta }) ("-" <> spec.name)
          (glidein_set_creator k (glidein_set_spec pilot_set spec))

    apply_glidein_set-at :
        (w : kube.Cluster) (o : Option (GlideinSet k))
        → store.find w (entry_key pilot_set spec) ≡ o
        → apply_glidein_set kube pilot_set spec w ≡ (ok tt, store.put w (want spec o))
    unfolding apply_glidein_set entry_key name_for
    apply_glidein_set-at w none missing =
        bind-ok (attempt (with_new kube.new_glidein_set updating)) _ (
          attempt-err (with_new kube.new_glidein_set updating) (
            with_new_lem updating (
              apply-none (glidein_set_meta k) kube.is_not_found kube.glidein_sets store M Every
                (IsQuiet-IsQuietFor Q) (record { resource = pilot_set.meta }) ("-" <> spec.name)
                (name_for ("-" <> spec.name) pilot_set.meta)
                (glidein_set_updater k (glidein_set_spec pilot_set spec)) kube.new_glidein_set w
                want-IsUpsert.name_lem missing tt)))
        ∙ rw (Q.is_not_found-absent (entry_key pilot_set spec)) (
            with_new_lem creating (
              create-none (glidein_set_meta k) kube.is_not_found kube.glidein_sets store M Every
                (IsQuiet-IsQuietFor Q) (record { resource = pilot_set.meta }) ("-" <> spec.name)
                (name_for ("-" <> spec.name) pilot_set.meta)
                (glidein_set_creator k (glidein_set_spec pilot_set spec)) kube.new_glidein_set w
                want-IsUpsert.made want-IsUpsert.name_lem missing tt want-IsUpsert.create_lem
                want-IsUpsert.made_free want-IsUpsert.made_key tt))
        ∙ ap (λ (g : GlideinSet k). (ok tt, store.put w g))
            (stored_lem _ ∙ sym want-IsUpsert.after-none)
    apply_glidein_set-at w (some old) found =
        let key = Q.key-find (entry_key pilot_set spec) w old found in
        bind-ok (attempt (with_new kube.new_glidein_set updating)) _ (
          attempt-ok (with_new kube.new_glidein_set updating) (
            with_new_lem updating (
              apply-some (glidein_set_meta k) kube.is_not_found kube.glidein_sets store M Every
                (IsQuiet-IsQuietFor Q) (record { resource = pilot_set.meta }) ("-" <> spec.name)
                (name_for ("-" <> spec.name) pilot_set.meta)
                (glidein_set_updater k (glidein_set_spec pilot_set spec)) kube.new_glidein_set w old
                (want spec (some old)) want-IsUpsert.name_lem found tt tt
                (want-IsUpsert.update_lem old tt key) (want-IsUpsert.key-after old tt key))))
        ∙ ap (λ (g : GlideinSet k). (ok tt, store.put w g)) (stored_lem _)

    apply_glidein_set_lem :
        (w : kube.Cluster)
        → apply_glidein_set kube pilot_set spec w
          ≡ (ok tt, store.put w (want spec (store.find w (entry_key pilot_set spec))))
    apply_glidein_set_lem w = apply_glidein_set-at w (store.find w (entry_key pilot_set spec)) refl

    key-want :
        (w : kube.Cluster) (o : Option (GlideinSet k))
        → store.find w (entry_key pilot_set spec) ≡ o
        → key_of (want spec o).meta ≡ entry_key pilot_set spec
    unfolding wanted entry_key
    key-want w none h = refl
    key-want w (some old) h = Q.key-find (entry_key pilot_set spec) w old h

    is_dead-want :
        (w : kube.Cluster) (o : Option (GlideinSet k))
        → store.find w (entry_key pilot_set spec) ≡ o
        → is_dead (want spec o).meta ≡ false
    unfolding wanted
    is_dead-want w none h = rw B.deletion_timestamp_lem
    is_dead-want w (some old) h = Q.is_dead-find (entry_key pilot_set spec) w old h

    find-want :
        (w : kube.Cluster) (n : NamespacedName)
        → store.find (store.put w (want spec (store.find w (entry_key pilot_set spec)))) n ≡ (
            if same_key (entry_key pilot_set spec) n
            then some (want spec (store.find w n))
            else store.find w n)
    find-want w n =
        rw
          (
            Q.find-put,
            key-want w (store.find w (entry_key pilot_set spec)) refl,
            is_dead-want w (store.find w (entry_key pilot_set spec)) refl,
          )
          (elim (Bool-cases (same_key (entry_key pilot_set spec) n)) [
            | inl same ↦ rw (same, (same_key_iff (entry_key pilot_set spec) n).0 same)
            | inr other ↦ rw other
          ])

  -- The loop succeeds, and leaves what the entries ask for.
  pub for_each-apply_glidein_set :
      (specs : List (GlideinSetSpec k)) (w : kube.Cluster)
      → ((for_each specs (apply_glidein_set kube pilot_set) w).0 ≡ ok tt)
        × ((n : NamespacedName)
            → store.find (for_each specs (apply_glidein_set kube pilot_set) w).1 n
              ≡ overlay kube.new_glidein_set pilot_set
                  (last_entry pilot_set n specs)
                  (store.find w n))
  unfolding for_each ◌>>=◌
  for_each-apply_glidein_set [] w = unfold last_entry in (refl, λ n. refl)
  for_each-apply_glidein_set (spec ∷ specs) w =
      let w' = store.put w (want spec (store.find w (entry_key pilot_set spec))) in
      let (done, holds) = for_each-apply_glidein_set specs w' in
      rw (apply_glidein_set_lem spec w) (
        done,
        λ n.
            holds n
            ∙ ap (overlay kube.new_glidein_set pilot_set (last_entry pilot_set n specs))
                (find-want spec w n)
            ∙ overlay-last_entry kube.new_glidein_set pilot_set spec specs n (store.find w n),
      )

  -- What a write of a GlideinSet keeps, the loop keeps.
  pub for_each-apply_glidein_set-kept :
      (I : kube.Cluster → Type 0)
      → ((w : kube.Cluster) (g : GlideinSet k) → I w → I (store.put w g))
      → (specs : List (GlideinSetSpec k)) (w : kube.Cluster) → I w
      → I (for_each specs (apply_glidein_set kube pilot_set) w).1
  unfolding for_each ◌>>=◌
  for_each-apply_glidein_set-kept I put [] w i = i
  for_each-apply_glidein_set-kept I put (spec ∷ specs) w i = rw (apply_glidein_set_lem spec w) (
      for_each-apply_glidein_set-kept I put specs _
        (put w (want spec (store.find w (entry_key pilot_set spec))) i))
