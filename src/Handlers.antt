-- ===== src/Handlers.antt =====
-- The methods of PilotSetReconcileState in glideinset_controller.go and
-- glideinsetcollection_controller.go, by which a poller and a collector client reach a GlideinSet.
pub mod Tokens
pub mod GitSync
pub mod UpdateSpec
pub mod GitCheck
pub mod GitTick
pub mod TokenSecret
pub mod SecretSync
pub mod SecretTick
use mathlib.Core.Option
use gmos_k8s_operator.Prelude.{
  String, Option, none, some, Bool, true, false, ◌&&◌, ◌||◌, not, [], if◌then◌else◌,
}
use gmos_k8s_operator.Dict
use gmos_k8s_operator.Exec.{Error, join, Exec, pure, gets, check, attempt, with_new, ◌>>=◌, ◌>>◌}
use gmos_k8s_operator.Types.{K8s, Secret, PilotSetNamespaceConfig, PilotSetSecretSource}
use gmos_k8s_operator.ResourceName.{ResourceName, rn_base, rn_tokens, rn_collector_tokens, name_for}
use gmos_k8s_operator.Kube.{Kube}
use gmos_k8s_operator.ApiUtil.{
  PilotSetReconcileState, child_key, apply_update_to_resource, get_resource_value,
}
use gmos_k8s_operator.Host.{Host, RepoUpdate, SecretValue}
use gmos_k8s_operator.Schemas.{
  secret_version_label, token_secret_value_updater, collector_token_secret_updater,
}
use gmos_k8s_operator.Manifest.{glidein_set_git_updater}
use gmos_k8s_operator.Poller.Checks.{UpdateHandler}
use gmos_k8s_operator.CollectorClient.{CollectorUpdateHandler}

-- The key that `shouldUpdateTokens` looks for.
abbrev pub checked_token_key : String
checked_token_key = "cluster.tkn"

unfoldable pub lacks_token : Secret → Bool
unfolding Dict.has_key
lacks_token secret = not (Dict.has_key checked_token_key (Option.get_or secret.content []))

-- m[k] on a map of strings: "" where the key is missing
unfoldable pub secret_version : Secret → String
secret_version secret =
    Option.get_or (Dict.lookup secret_version_label (Option.get_or secret.meta.labels [])) ""

module _ {k : K8s} (kube : Kube k) (host : Host) (new_secret : Secret)
    (pr : PilotSetReconcileState) where
  -- updateErrOk
  unfoldable pub update_err_ok : Option Error → Bool
  update_err_ok none = true
  update_err_ok (some e) = kube.is_not_found e

  -- apierrors.IsNotFound of an error that may be nil
  unfoldable pub is_absent : Option Error → Bool
  is_absent none = false
  is_absent (some e) = kube.is_not_found e

  unfoldable pub apply_git_update : RepoUpdate → Exec kube.Cluster (Unit {0})
  unfolding with_new apply_update_to_resource glidein_set_git_updater update_err_ok attempt check
      ◌>>=◌
  apply_git_update update = do
    e ← attempt (
        with_new kube.new_glidein_set (
          apply_update_to_resource kube.glidein_sets kube.is_not_found pr rn_base
            (glidein_set_git_updater host k update)))
    if update_err_ok e then pure tt else check e

  unfoldable pub apply_secret_update :
      PilotSetSecretSource → SecretValue → Exec kube.Cluster (Unit {0})
  unfolding with_new apply_update_to_resource token_secret_value_updater
  apply_secret_update source value = with_new new_secret (
      apply_update_to_resource kube.secrets kube.is_not_found pr rn_tokens
        (token_secret_value_updater host source value))

  unfoldable pub get_git_sync_state : Exec kube.Cluster (Option PilotSetNamespaceConfig)
  unfolding with_new get_resource_value ◌>>=◌
  get_git_sync_state = with_new kube.new_glidein_set (do
    get_resource_value kube.glidein_sets kube.is_not_found pr rn_base
    gets (λ c. c.resource.remote_manifest))

  unfoldable pub get_secret_sync_state : Exec kube.Cluster String
  unfolding with_new get_resource_value secret_version ◌>>=◌
  get_secret_sync_state = with_new new_secret (do
    get_resource_value kube.secrets kube.is_not_found pr rn_tokens
    gets (λ c. secret_version c.resource))

  unfoldable pub write_token : ResourceName → String → Exec kube.Cluster (Unit {0})
  unfolding with_new apply_update_to_resource collector_token_secret_updater
  write_token rn token = with_new new_secret (
      apply_update_to_resource kube.secrets kube.is_not_found pr rn
        (collector_token_secret_updater token))

  -- Both secrets are written, also where the first write fails.
  unfoldable pub apply_tokens_update : String → String → Exec kube.Cluster (Unit {0})
  unfolding write_token attempt check join ◌>>=◌
  apply_tokens_update glidein_token pilot_token = do
    e ← attempt (write_token rn_collector_tokens glidein_token)
    e2 ← attempt (write_token rn_tokens pilot_token)
    check (join e e2)

  -- A Get into a new Secret: its error and what is then at the pointer.
  unfoldable pub read_secret : ResourceName → Exec kube.Cluster (Option Error × Secret)
  unfolding with_new name_for attempt ◌>>=◌
  read_secret rn = with_new new_secret (do
    e ← attempt (kube.secrets.get (child_key pr (name_for rn pr.resource)))
    gets (λ c. (e, c.resource)))

  unfoldable pub decide_update :
      Option Error × Secret → Option Error × Secret → Exec kube.Cluster Bool
  unfolding lacks_token is_absent check join ◌>>=◌
  decide_update (none, glidein_sec) (none, ep_sec) =
      pure (lacks_token glidein_sec || lacks_token ep_sec)
  decide_update (glidein_err, _) (ep_err, _) =
      if is_absent glidein_err && is_absent ep_err
      then pure false
      else check (join ep_err glidein_err) >> pure false

  unfoldable pub should_update_tokens : Exec kube.Cluster Bool
  unfolding read_secret decide_update ◌>>=◌
  should_update_tokens = do
    glidein ← read_secret rn_collector_tokens
    ep ← read_secret rn_tokens
    decide_update glidein ep

  abbrev pub update_handler : UpdateHandler kube.Cluster
  update_handler = record {
    apply_git_update = apply_git_update;
    get_git_sync_state = get_git_sync_state;
    get_secret_sync_state = get_secret_sync_state;
    apply_secret_update = apply_secret_update;
  }

  abbrev pub collector_update_handler : CollectorUpdateHandler kube.Cluster
  collector_update_handler = record {
    should_update_tokens = should_update_tokens;
    apply_tokens_update = apply_tokens_update;
  }
