-- ===== src/Handlers/TokenSecret.antt =====
-- TokenSecretValueUpdater of pilotset_schemas.go: what a secret of the Glidein Manager becomes in the
-- cluster, and the version that getSecretSyncState then reads.
use mathlib.Core.Option
use gmos_k8s_operator.Prelude.{
  String, ◌≡◌, ◌≢◌, refl, none, some, true, [], ◌==◌, eq-false, if◌then◌else◌,
}
use gmos_k8s_operator.Dict
use gmos_k8s_operator.Dict.{Dict}
use gmos_k8s_operator.Exec.{ok, pure, lift, gets, modify, ◌>>=◌}
use gmos_k8s_operator.Types.{Bytes, Secret, PilotSetSecretSource}
use gmos_k8s_operator.Host.{Host, SecretValue}
use gmos_k8s_operator.FilePath.{split}
use gmos_k8s_operator.Schemas.{
  empty_map_key, secret_version_label, write_map, set_content, drop_placeholder, set_secret_version,
  put_token, token_secret_value_updater,
}
use gmos_k8s_operator.Handlers.{secret_version}

module _ (host : Host) (source : PilotSetSecretSource) (value : SecretValue) (secret : Secret)
    (token : Bytes) (decoded : host.decode_base64 value.value ≡ ok token)
    (placed : source.dst ≢ "") where
  -- The secret with these entries and the version's label.
  abbrev pub with_content : Dict Bytes → Secret
  with_content d = record secret {
    meta = record secret.meta {
      labels =
          some
            (Dict.insert secret_version_label value.version (Option.get_or secret.meta.labels []));
    };
    content = some (Dict.erase empty_map_key (Dict.insert (split source.dst).1 token d));
  }

  pub updated_secret :
      (d : Dict Bytes)
      → secret.content ≡ some d
      → (token_secret_value_updater host source value).update_resource_value secret
        ≡ (ok true, with_content d)
  unfolding token_secret_value_updater put_token write_map set_content set_secret_version
      drop_placeholder lift gets modify pure ◌>>=◌
  updated_secret d held = rw (token_secret_value_updater, decoded, eq-false _ "" placed, held)

  pub secret_version-with_content :
      (d : Dict Bytes) → secret_version (with_content d) ≡ value.version
  unfolding secret_version
  secret_version-with_content d = rw Dict.lookup-insert

  -- A secret with data and a place for it, which can be decoded, is updated without an error. Then
  -- its version is the manager's, the token is under the file name of its place, the placeholder is
  -- gone, and the other entries are as they were.
  pub token_secret_value_updater_lem :
      (d : Dict Bytes)
      → secret.content ≡ some d
      → (((token_secret_value_updater host source value).update_resource_value secret).0 ≡ ok true)
        × (secret_version
              ((token_secret_value_updater host source value).update_resource_value secret).1
            ≡ value.version)
        × ((k : String)
            → Dict.lookup k (
                Option.get_or
                  ((token_secret_value_updater host source value).update_resource_value
                    secret).1.content
                  [])
              ≡ (if empty_map_key == k
                  then none
                  else (if (split source.dst).1 == k then some token else Dict.lookup k d)))
  unfolding secret_version
  token_secret_value_updater_lem d held =
      rw (updated_secret d held)
        (refl, rw Dict.lookup-insert, λ k. rw (Dict.lookup-erase, Dict.lookup-insert))
