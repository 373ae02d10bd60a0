-- ===== src/Poller/Checks.antt =====
-- internal/controller/glideinmanager_client.go: what a poller does at a tick, and the handshake.
use Prim.Native.String.{len, slice}
use gmos_k8s_operator.Prelude.{
  ℕ, zero, suc, String, Option, none, some, Bool, false, ◌||◌, List, [], ◌∷◌, ◌++◌, ltb, ◌==◌,
  if◌then◌else◌,
}
use gmos_k8s_operator.Dict.{Dict}
use gmos_k8s_operator.Types.{PilotSetNamespaceConfig, PilotSetSecretSource}
use gmos_k8s_operator.Host.{RepoUpdate, SecretValue}
use gmos_k8s_operator.Exec.{
  Error, Result, ok, panic, join_all, Exec, pure, lift, check, attempt, if_ok, for_each, ◌>>=◌,
}

-- The interface GlideinManagerUpdateHandler.
pub record UpdateHandler (W : Type 0) : Type 0 where
  pub apply_git_update : RepoUpdate → Exec W (Unit {0})
  pub get_git_sync_state : Exec W (Option PilotSetNamespaceConfig)
  pub get_secret_sync_state : Exec W String
  pub apply_secret_update : PilotSetSecretSource → SecretValue → Exec W (Unit {0})

-- gmosClient.GlideinManagerClient, a package of its own.
pub record ManagerClient (W : Type 0) : Type 0 where
  pub sync_repo : Exec W RepoUpdate
  pub get_secret : String → Exec W SecretValue
  pub do_handshake : ℕ → Exec W (Unit {0})

abbrev pub max_label_length : ℕ
max_label_length = 63

-- s[:n] counts bytes, and is a run-time panic where the text is shorter.
unfoldable pub prefix : String → ℕ → Result String
prefix s n = if ltb (len s) n then panic else ok (slice s 0 n)

unfoldable pub at_commit? : RepoUpdate → Option PilotSetNamespaceConfig → Bool
at_commit? update none = false
at_commit? update (some config) = config.current_commit == update.current_commit

module _ {W : Type 0} (client : ManagerClient W) where
  unfoldable pub check_handler_for_git_update :
      RepoUpdate → String × UpdateHandler W → Exec W (Unit {0})
  check_handler_for_git_update update (resource, handler) =
      if_ok handler.get_git_sync_state λ config.
        if at_commit? update config then pure tt else if_ok (handler.apply_git_update update) pure

  -- Errors are logged, and the loop goes on with the next resource.
  unfoldable pub check_for_git_updates : Dict (UpdateHandler W) → Exec W (Unit {0})
  check_for_git_updates handlers =
      if_ok client.sync_repo λ update. for_each handlers (check_handler_for_git_update update)

  unfoldable pub update_secret :
      UpdateHandler W → PilotSetSecretSource → SecretValue → Exec W (Unit {0})
  update_secret handler source next_secret = do
    version ← lift (prefix next_secret.version max_label_length)
    if_ok handler.get_secret_sync_state λ current.
        if version == current
        then pure tt
        else if_ok (handler.apply_secret_update source (record next_secret { version = version }))
            pure

  unfoldable pub check_config_for_secret_update :
      UpdateHandler W → Option PilotSetNamespaceConfig → Exec W (Unit {0})
  check_config_for_secret_update handler none = pure tt
  check_config_for_secret_update handler (some config) =
      if config.secret_source.secret_name == "" || config.secret_source.dst == ""
      then pure tt
      else if_ok (client.get_secret config.secret_source.secret_name)
          (update_secret handler config.secret_source)

  unfoldable pub check_handler_for_secret_update : String × UpdateHandler W → Exec W (Unit {0})
  check_handler_for_secret_update (resource, handler) =
      if_ok handler.get_git_sync_state (check_config_for_secret_update handler)

  unfoldable pub check_for_secret_updates : Dict (UpdateHandler W) → Exec W (Unit {0})
  check_for_secret_updates handlers = for_each handlers check_handler_for_secret_update

  -- The loop of `doHandshakeWithRetry`, without its pauses; `errs` are the errors so far.
  unfoldable pub retry_handshake : ℕ → List Error → Exec W (Unit {0})
  retry_handshake zero errs = check (join_all errs)
  retry_handshake (suc retries) errs = attempt (client.do_handshake 8071) >>= λ e. elim e [
    | none ↦ pure tt
    | some e ↦ retry_handshake retries (errs ++ (e ∷ []))
  ]

  unfoldable pub do_handshake_with_retry : ℕ → Exec W (Unit {0})
  unfolding retry_handshake
  do_handshake_with_retry retries = retry_handshake retries []
