-- ===== src/Schemas.antt =====
-- internal/controller/pilotset_schemas.go and collector_schemas.go: the values that the operator
-- writes into secrets and GlideinSets. The body of `len(sec.Data) > 2` in the source is empty.
use mathlib.Core.Option
use gmos_k8s_operator.Prelude.{String, Option, none, some, true, [], ◌∷◌, ◌==◌, if◌then◌else◌}
use gmos_k8s_operator.Dict
use gmos_k8s_operator.Dict.{Dict}
use gmos_k8s_operator.Exec.{Result, ok, panic, Exec, pure, gets, lift, modify, ◌>>=◌, ◌>>◌}
use gmos_k8s_operator.Types.{Bytes, K8s, Secret, PilotSetSecretSource, GlideinSet, GlideinSetSpec}
use gmos_k8s_operator.FilePath.{split}
use gmos_k8s_operator.Host.{Host, SecretValue}
use gmos_k8s_operator.ApiUtil.{ResourceUpdater, ResourceCreator}

abbrev pub empty_map_key : String
empty_map_key = "sample.cfg"

abbrev pub secret_version_label : String
secret_version_label = "gmos.chtc.wisc.edu/secret-version"

unfoldable pub empty_secret_creator : ResourceCreator Secret
unfolding modify
empty_secret_creator = record {
  set_resource_value =
      λ owner. modify (λ secret. record secret { content = some ((empty_map_key, []) ∷ []) });
}

unfoldable pub labels_for_pilot_set : String → Dict String
labels_for_pilot_set name =
    ("app.kubernetes.io/name", "GlideinSetCollection")
    ∷ ("app.kubernetes.io/instance", name)
    ∷ ("app.kubernetes.io/created-by", "controller-manager")
    ∷ []

-- m[k] = v on a map that may be nil: a write to a nil map is a run-time panic
unfoldable pub write_map {ℓ} :
    {V : Type ℓ} → String → V → Option (Dict V) → Result (Option (Dict V))
write_map key value none = panic
write_map key value (some d) = ok (some (Dict.insert key value d))

unfoldable pub set_content : Option (Dict Bytes) → Secret → Secret
set_content content secret = record secret { content = content }

-- delete(sec.Data, EMPTY_MAP_KEY), which a nil map allows
unfoldable pub drop_placeholder : Secret → Secret
drop_placeholder secret = record secret {
  content = Option.map (Dict.erase empty_map_key) secret.content;
}

unfoldable pub set_secret_version : String → Secret → Secret
set_secret_version version secret = record secret {
  meta = record secret.meta {
    labels = some (Dict.insert secret_version_label version (Option.get_or secret.meta.labels []));
  };
}

-- The token, under the last part of the path at which it is to be mounted.
unfoldable pub put_token : String → Bytes → Exec Secret (Unit {0})
unfolding write_map ◌>>=◌
put_token dst value = do
  content ← gets (λ secret. secret.content)
  written ← lift (write_map (split dst).1 value content)
  modify (set_content written)

unfoldable pub token_secret_value_updater :
    Host → PilotSetSecretSource → SecretValue → ResourceUpdater Secret
unfolding put_token set_secret_version drop_placeholder ◌>>=◌
token_secret_value_updater host source value = record {
  update_resource_value = do
    token ← lift (host.decode_base64 value.value)
    if source.dst == "" then pure tt else put_token source.dst token
    modify (set_secret_version value.version)
    modify drop_placeholder
    pure true;
}

-- CollectorTokenSecretUpdater
abbrev pub collector_token_key : String
collector_token_key = "collector.tkn"

unfoldable pub collector_token_secret_updater : String → ResourceUpdater Secret
unfolding drop_placeholder ◌>>=◌
collector_token_secret_updater token = record {
  update_resource_value = do
    modify (λ secret. record secret { string_data = some ((collector_token_key, token) ∷ []) })
    modify drop_placeholder
    pure true;
}

module _ (k : K8s) where
  -- GlideinSetCreator, as creator and as updater
  unfoldable pub glidein_set_creator : GlideinSetSpec k → ResourceCreator (GlideinSet k)
  unfolding modify labels_for_pilot_set
  glidein_set_creator spec = record {
    set_resource_value = λ owner. modify (λ glidein_set. record glidein_set {
      meta = record glidein_set.meta { labels = some (labels_for_pilot_set owner.name) };
      spec = spec;
    });
  }

  unfoldable pub glidein_set_updater : GlideinSetSpec k → ResourceUpdater (GlideinSet k)
  unfolding ◌>>=◌
  glidein_set_updater spec = record {
    update_resource_value = do
      modify (λ glidein_set. record glidein_set { spec = spec })
      pure true;
  }
