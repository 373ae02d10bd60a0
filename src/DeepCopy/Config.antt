-- ===== src/DeepCopy/Config.antt =====
-- api/v1alpha1/zz_generated.deepcopy.go: the copies of a namespace's config and of its parts. As in
-- the generated code, `*out = *in` comes first, and each field that refers to memory is then copied.
use gmos_k8s_operator.Prelude.{◌≡◌, [], ◌++◌}
use gmos_k8s_operator.Types.{
  PilotSetEnv, PilotSetSecretSource, PilotSetSecurity, PilotSetVolumeMount,
}
use gmos_k8s_operator.DeepCopy.{
  Alloc, pure, ◌>>=◌, Pointer, Copier, plain, copy_pointer, copy_slice, slices,
}
use gmos_k8s_operator.DeepCopy.Structs.{
  PilotSetNamespaceConfigStruct, GlideinSetStatus, GlideinSetCollectionStatus,
}

unfoldable pub pilot_set_env_deep_copy_into : PilotSetEnv → Alloc PilotSetEnv
pilot_set_env_deep_copy_into self = pure self

abbrev pub pilot_set_env_copier : Copier PilotSetEnv
pilot_set_env_copier = record {
  deep_copy_into = pilot_set_env_deep_copy_into;
  addresses = λ v. [];
  Same = λ v w. v ≡ w;
}

unfoldable pub pilot_set_env_deep_copy : Pointer PilotSetEnv → Alloc (Pointer PilotSetEnv)
unfolding copy_pointer
pilot_set_env_deep_copy self = copy_pointer pilot_set_env_copier self

unfoldable pub pilot_set_secret_source_deep_copy_into :
    PilotSetSecretSource → Alloc PilotSetSecretSource
pilot_set_secret_source_deep_copy_into self = pure self

abbrev pub pilot_set_secret_source_copier : Copier PilotSetSecretSource
pilot_set_secret_source_copier = record {
  deep_copy_into = pilot_set_secret_source_deep_copy_into;
  addresses = λ v. [];
  Same = λ v w. v ≡ w;
}

unfoldable pub pilot_set_secret_source_deep_copy :
    Pointer PilotSetSecretSource → Alloc (Pointer PilotSetSecretSource)
unfolding copy_pointer
pilot_set_secret_source_deep_copy self = copy_pointer pilot_set_secret_source_copier self

unfoldable pub pilot_set_security_deep_copy_into : PilotSetSecurity → Alloc PilotSetSecurity
pilot_set_security_deep_copy_into self = pure self

abbrev pub pilot_set_security_copier : Copier PilotSetSecurity
pilot_set_security_copier = record {
  deep_copy_into = pilot_set_security_deep_copy_into;
  addresses = λ v. [];
  Same = λ v w. v ≡ w;
}

unfoldable pub pilot_set_security_deep_copy :
    Pointer PilotSetSecurity → Alloc (Pointer PilotSetSecurity)
unfolding copy_pointer
pilot_set_security_deep_copy self = copy_pointer pilot_set_security_copier self

unfoldable pub pilot_set_volume_mount_deep_copy_into :
    PilotSetVolumeMount → Alloc PilotSetVolumeMount
pilot_set_volume_mount_deep_copy_into self = pure self

abbrev pub pilot_set_volume_mount_copier : Copier PilotSetVolumeMount
pilot_set_volume_mount_copier = record {
  deep_copy_into = pilot_set_volume_mount_deep_copy_into;
  addresses = λ v. [];
  Same = λ v w. v ≡ w;
}

unfoldable pub pilot_set_volume_mount_deep_copy :
    Pointer PilotSetVolumeMount → Alloc (Pointer PilotSetVolumeMount)
unfolding copy_pointer
pilot_set_volume_mount_deep_copy self = copy_pointer pilot_set_volume_mount_copier self

unfoldable pub glidein_set_status_deep_copy_into : GlideinSetStatus → Alloc GlideinSetStatus
glidein_set_status_deep_copy_into self = pure self

abbrev pub glidein_set_status_copier : Copier GlideinSetStatus
glidein_set_status_copier = record {
  deep_copy_into = glidein_set_status_deep_copy_into;
  addresses = λ v. [];
  Same = λ v w. v ≡ w;
}

unfoldable pub glidein_set_status_deep_copy :
    Pointer GlideinSetStatus → Alloc (Pointer GlideinSetStatus)
unfolding copy_pointer
glidein_set_status_deep_copy self = copy_pointer glidein_set_status_copier self

unfoldable pub glidein_set_collection_status_deep_copy_into :
    GlideinSetCollectionStatus → Alloc GlideinSetCollectionStatus
glidein_set_collection_status_deep_copy_into self = pure self

abbrev pub glidein_set_collection_status_copier : Copier GlideinSetCollectionStatus
glidein_set_collection_status_copier = record {
  deep_copy_into = glidein_set_collection_status_deep_copy_into;
  addresses = λ v. [];
  Same = λ v w. v ≡ w;
}

unfoldable pub glidein_set_collection_status_deep_copy :
    Pointer GlideinSetCollectionStatus → Alloc (Pointer GlideinSetCollectionStatus)
unfolding copy_pointer
glidein_set_collection_status_deep_copy self =
    copy_pointer glidein_set_collection_status_copier self

unfoldable pub pilot_set_namespace_config_deep_copy_into :
    PilotSetNamespaceConfigStruct → Alloc PilotSetNamespaceConfigStruct
unfolding copy_slice
pilot_set_namespace_config_deep_copy_into self = do
  env ← copy_slice plain self.env
  command ← copy_slice plain self.command
  pure (record self { env = env; command = command })

abbrev pub SameConfig : PilotSetNamespaceConfigStruct → PilotSetNamespaceConfigStruct → Type 0
SameConfig v w =
    (v.namespace ≡ w.namespace)
    × (v.image ≡ w.image)
    × (v.security ≡ w.security)
    × (v.volume ≡ w.volume)
    × (v.secret_source ≡ w.secret_source)
    × (slices plain).Same v.env w.env
    × (slices plain).Same v.command w.command
    × (v.repo_path ≡ w.repo_path)
    × (v.current_commit ≡ w.current_commit)
    × (v.previous_commit ≡ w.previous_commit)
    × (v.current_secret_version ≡ w.current_secret_version)

abbrev pub pilot_set_namespace_config_copier : Copier PilotSetNamespaceConfigStruct
pilot_set_namespace_config_copier = record {
  deep_copy_into = pilot_set_namespace_config_deep_copy_into;
  addresses = λ v. (slices plain).addresses v.env ++ (slices plain).addresses v.command;
  Same = SameConfig;
}

unfoldable pub pilot_set_namespace_config_deep_copy :
    Pointer PilotSetNamespaceConfigStruct → Alloc (Pointer PilotSetNamespaceConfigStruct)
unfolding copy_pointer
pilot_set_namespace_config_deep_copy self = copy_pointer pilot_set_namespace_config_copier self
