-- ===== src/Handlers/UpdateSpec.antt =====
-- What a Git update is to make of a GlideinSet, apart from the calls that do it.
use gmos_k8s_operator.Prelude.{
  ◌≡◌, refl, ap, Option, none, some, false, inl, inr, eq_refl, Bool-cases, if◌then◌else◌,
}
use gmos_k8s_operator.Exec.{Result, ok, err, panic}
use gmos_k8s_operator.Types.{K8s, GlideinSet, PilotSetNamespaceConfig}
use gmos_k8s_operator.Host.{Host, RepoUpdate}
use gmos_k8s_operator.Manifest.{read_manifest_for_namespace, at_commit}
use gmos_k8s_operator.Poller.Checks.{at_commit?}

module _ {k : K8s} (host : Host) (update : RepoUpdate) where
  abbrev with_manifest : GlideinSet k → Result PilotSetNamespaceConfig → GlideinSet k
  with_manifest g (ok config) = record g { remote_manifest = some (at_commit host update config) }
  with_manifest g (err e) = g
  with_manifest g panic = g

  -- What a Git update makes of a GlideinSet: it gets the manifest of its namespace, unless it is at
  -- that commit already or the manifest cannot be read.
  abbrev pub updated : GlideinSet k → GlideinSet k
  updated g =
      if at_commit? update g.remote_manifest
      then g
      else with_manifest g (read_manifest_for_namespace host update g.meta.namespace)

  abbrev pub map_updated : Option (GlideinSet k) → Option (GlideinSet k)
  map_updated none = none
  map_updated (some g) = some (updated g)

  with_manifest_idem :
      (g : GlideinSet k) (r : Result PilotSetNamespaceConfig)
      → read_manifest_for_namespace host update g.meta.namespace ≡ r
      → at_commit? update g.remote_manifest ≡ false
      → updated (with_manifest g r) ≡ with_manifest g r
  unfolding at_commit? at_commit
  with_manifest_idem g (ok config) h away = rw (eq_refl update.current_commit)
  with_manifest_idem g (err e) h away = rw (away, h)
  with_manifest_idem g panic h away = rw (away, h)

  updated_idem : (g : GlideinSet k) → updated (updated g) ≡ updated g
  updated_idem g = elim (Bool-cases (at_commit? update g.remote_manifest)) [
    | inl there ↦ rw (there, there)
    | inr away ↦ rw away (with_manifest_idem g _ refl away)
  ]

  pub map_updated_idem : (o : Option (GlideinSet k)) → map_updated (map_updated o) ≡ map_updated o
  map_updated_idem none = refl
  map_updated_idem (some g) = ap some (updated_idem g)
