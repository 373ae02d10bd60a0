-- ===== src/Manifest.antt =====
-- internal/controller/pilotset_schemas.go: the manifest of a namespace in the cloned Git repository,
-- and the files of its data directory.
pub mod Files
use gmos_k8s_operator.Prelude.{String, ◌<>◌, none, some, true, List, [], ◌∷◌, ◌==◌, if◌then◌else◌}
use gmos_k8s_operator.Dict
use gmos_k8s_operator.Dict.{Dict}
use gmos_k8s_operator.Exec.{
  Result, ok, err, panic, message, and_then, pure, lift, modify, gets, ◌>>=◌, ◌>>◌,
}
use gmos_k8s_operator.Types.{Bytes, K8s, PilotSetNamespaceConfig, GlideinSet}
use gmos_k8s_operator.Host.{Host, DirEntry, RepoUpdate}
use gmos_k8s_operator.ApiUtil.{ResourceUpdater}
use gmos_k8s_operator.Template.{DataSecretTemplate}

-- The loop of `readManifestForNamespace`; the text of the error leaves the manifest out.
unfoldable pub find_config : String → List PilotSetNamespaceConfig → Result PilotSetNamespaceConfig
find_config namespace [] = err (message ("no config found for namespace " <> namespace))
find_config namespace (config ∷ configs) =
    if config.namespace == namespace then ok config else find_config namespace configs

module _ (host : Host) where
  unfoldable pub read_manifest_for_namespace : RepoUpdate → String → Result PilotSetNamespaceConfig
  unfolding and_then
  read_manifest_for_namespace update namespace =
      and_then (host.read_file (host.join_path (update.path ∷ "glidein-manifest.yaml" ∷ [])))
        λ text.
          and_then (host.unmarshal_manifest text)
            λ manifest. find_config namespace manifest.manifests

  -- What `GlideinSetGitUpdater` stores of a manifest.
  unfoldable pub at_commit : RepoUpdate → PilotSetNamespaceConfig → PilotSetNamespaceConfig
  at_commit update config = record config {
    repo_path = update.path;
    current_commit = update.current_commit;
    previous_commit = update.previous_commit;
  }

  unfoldable pub glidein_set_git_updater : (k : K8s) → RepoUpdate → ResourceUpdater (GlideinSet k)
  unfolding read_manifest_for_namespace at_commit ◌>>=◌
  glidein_set_git_updater k update = record {
    update_resource_value = do
      namespace ← gets (λ glidein_set. glidein_set.meta.namespace)
      config ← lift (read_manifest_for_namespace update namespace)
      modify
          (λ glidein_set. record glidein_set { remote_manifest = some (at_commit update config) })
      pure true;
  }

  -- The loop of `makeDataSecretTemplate` over a directory.
  unfoldable pub read_entries : String → String → List DirEntry → Dict Bytes → Result (Dict Bytes)
  unfolding and_then
  read_entries repo src [] files = ok files
  read_entries repo src (entry ∷ entries) files =
      and_then
        (if entry.is_dir
          then ok files
          else and_then (host.read_file (host.join_path (repo ∷ src ∷ entry.name ∷ [])))
              (λ text. ok (Dict.insert entry.name text files)))
        (λ read. read_entries repo src entries read)

  -- Both tests of the error of ReadDir return that error.
  unfoldable pub read_data : PilotSetNamespaceConfig → Result (Dict Bytes)
  unfolding read_entries
  read_data manifest =
      elim (host.read_dir (host.join_path (manifest.repo_path ∷ manifest.volume.src ∷ []))) [
        | ok listing ↦ read_entries manifest.repo_path manifest.volume.src listing []
        | err e ↦ if host.is_not_exist e then err e else err e
        | panic ↦ panic
      ]

  unfoldable pub make_data_secret_template : {k : K8s} → GlideinSet k → Result DataSecretTemplate
  unfolding read_data and_then
  make_data_secret_template glidein_set = elim glidein_set.remote_manifest [
    | none ↦ ok (record {
      name = glidein_set.meta.name;
      namespace = glidein_set.meta.namespace;
      content = none;
    })
    | some manifest ↦ and_then (read_data manifest) λ files. ok (record {
      name = glidein_set.meta.name;
      namespace = glidein_set.meta.namespace;
      content = some files;
    })
  ]
