-- ===== src/Handlers/SecretSync.antt =====
-- A secret update as a poller brings it to a GlideinSet: the whole check of one handler, from the
-- manifest that the GlideinSet has to the token in its secret.
use gmos_k8s_operator.Prelude.{
  String, ◌≡◌, ◌≢◌, sym, ap, ◌∙◌, none, some, Bool, ◌==◌, eq_refl, eq-false, eq_iff, inl, inr,
  Bool-cases, if◌then◌else◌,
}
use gmos_k8s_operator.Dict.{Dict}
use gmos_k8s_operator.Exec.{
  Exec, Result, Cell, ok, pure, lift, with_new, gets, ◌>>=◌, bind-ok, if_ok, if_ok-ok,
}
use gmos_k8s_operator.Types.{
  Bytes, K8s, NamespacedName, Secret, GlideinSet, PilotSetNamespaceConfig,
}
use gmos_k8s_operator.ResourceName.{rn_tokens, name_for}
use gmos_k8s_operator.Kube.{Kube, glidein_set_meta, secret_meta}
use gmos_k8s_operator.Kube.Quiet.{Store, IsMetaApi, IsQuiet, same_key, same_key_refl, is_dead}
use gmos_k8s_operator.ApiUtil.{PilotSetReconcileState, child_key, get_resource_value}
use gmos_k8s_operator.Kube.Kinds.{Every, IsQuiet-IsQuietFor}
use gmos_k8s_operator.ApiUtil.Upsert.{resolved_name-new, apply-some}
use gmos_k8s_operator.Host.{Host, SecretValue}
use gmos_k8s_operator.Schemas.{token_secret_value_updater}
use gmos_k8s_operator.Poller.Checks.{
  max_label_length, prefix, ManagerClient, update_secret, check_config_for_secret_update,
  check_handler_for_secret_update,
}
use gmos_k8s_operator.Handlers.{
  secret_version, apply_secret_update, get_git_sync_state, get_secret_sync_state, update_handler,
}
use gmos_k8s_operator.Handlers.GitSync.{key, get_git_sync_state_lem}
use gmos_k8s_operator.Handlers.TokenSecret.{
  with_content, updated_secret, secret_version-with_content,
}

module _ {k : K8s} (kube : Kube k) (store : Store kube.Cluster (GlideinSet k))
    (M : IsMetaApi (glidein_set_meta k) kube.glidein_sets)
    (Q : IsQuiet (glidein_set_meta k) kube.is_not_found kube.glidein_sets store)
    (blank_name : kube.new_glidein_set.meta.name ≡ "")
    (stored_lem : (g : GlideinSet k) → store.stored g ≡ g) (secrets : Store kube.Cluster Secret)
    (secret-IsMetaApi : IsMetaApi secret_meta kube.secrets)
    (secret-IsQuiet : IsQuiet secret_meta kube.is_not_found kube.secrets secrets)
    (new_secret : Secret) (blank_secret : new_secret.meta.name ≡ "")
    (stored-secret : (s : Secret) → secrets.stored s ≡ s)
    (apart : (w : kube.Cluster) (s : Secret) (n : NamespacedName)
      → store.find (secrets.put w s) n ≡ store.find w n)
    (host : Host) (pr : PilotSetReconcileState) (client : ManagerClient kube.Cluster) where
  abbrev pub tokens_key : NamespacedName
  tokens_key = child_key pr (name_for rn_tokens pr.resource)

  get_secret_sync_state_lem :
      (w : kube.Cluster) (s : Secret)
      → secrets.find w tokens_key ≡ some s
      → get_secret_sync_state kube host new_secret pr w ≡ (ok (secret_version s), w)
  unfolding get_secret_sync_state get_resource_value with_new gets ◌>>=◌
  get_secret_sync_state_lem w s found = rw (secret-IsQuiet.get-some tokens_key new_secret w s found)

  module _ (config : PilotSetNamespaceConfig) (value : SecretValue) (version : String)
      (named : config.secret_source.secret_name ≢ "") (placed : config.secret_source.dst ≢ "")
      (served : (w : kube.Cluster)
        → client.get_secret config.secret_source.secret_name w ≡ (ok value, w))
      (cut : prefix value.version max_label_length ≡ ok version) where
    -- The value that the manager served, with the version that fits a label.
    abbrev pub next_secret : SecretValue
    next_secret = record value { version = version }

    abbrev checked : String → Exec kube.Cluster (Unit {0})
    checked resource =
        check_handler_for_secret_update client (resource, update_handler kube host new_secret pr)

    apply_if_new : Bool → Exec kube.Cluster (Unit {0})
    apply_if_new same =
        if same
        then pure tt
        else if_ok (apply_secret_update kube host new_secret pr config.secret_source next_secret)
            pure

    -- The check comes down to the test of the version.
    checked-apply_if_new :
        (resource : String) (w : kube.Cluster) (g : GlideinSet k) (s : Secret)
        → store.find w (key kube store M Q blank_name stored_lem host new_secret pr) ≡ some g
        → g.remote_manifest ≡ some config
        → secrets.find w tokens_key ≡ some s
        → checked resource w ≡ apply_if_new (version == secret_version s) w
    unfolding check_handler_for_secret_update check_config_for_secret_update update_secret lift
        apply_if_new
    checked-apply_if_new resource w g s found known held =
        if_ok-ok (get_git_sync_state kube host new_secret pr) _
          (get_git_sync_state_lem kube store M Q blank_name stored_lem host new_secret pr w g found)
        ∙ rw (known, eq-false _ "" named, eq-false _ "" placed)
            (if_ok-ok (client.get_secret config.secret_source.secret_name) _ (served w)
              ∙ bind-ok (λ v. (prefix value.version max_label_length, v)) _ (rw cut)
              ∙ if_ok-ok (get_secret_sync_state kube host new_secret pr) _
                  (get_secret_sync_state_lem w s held))

    module _ (token : Bytes) (decoded : host.decode_base64 value.value ≡ ok token)
        (w : kube.Cluster) (g : GlideinSet k) (s : Secret) (d : Dict Bytes)
        (found : store.find w (key kube store M Q blank_name stored_lem host new_secret pr)
          ≡ some g)
        (known : g.remote_manifest ≡ some config) (held : secrets.find w tokens_key ≡ some s)
        (filled : s.content ≡ some d) where
      -- The secret with the token that was served.
      abbrev pub renewed : Secret
      renewed = with_content host config.secret_source next_secret s token decoded placed d

      -- What the check is to leave.
      abbrev pub settled : kube.Cluster
      settled = if version == secret_version s then w else secrets.put w renewed

      secret_write_lem :
          apply_secret_update kube host new_secret pr config.secret_source next_secret w
          ≡ (ok tt, secrets.put w renewed)
      unfolding apply_secret_update with_new
      secret_write_lem =
          ap (λ (p : Result (Unit {0}) × Cell Secret kube.Cluster). (p.0, p.1.world))
            (apply-some secret_meta kube.is_not_found kube.secrets secrets secret-IsMetaApi Every
              (IsQuiet-IsQuietFor secret-IsQuiet) pr rn_tokens (name_for rn_tokens pr.resource)
              (token_secret_value_updater host config.secret_source next_secret) new_secret w s
              renewed
              (resolved_name-new secret_meta kube.is_not_found kube.secrets secrets secret-IsMetaApi
                secret-IsQuiet pr rn_tokens new_secret blank_secret)
              held tt tt
              (updated_secret host config.secret_source next_secret s token decoded placed d filled)
              (secret-IsQuiet.key-find _ w s held))
          ∙ ap (λ v. (ok tt, secrets.put w v)) (stored-secret renewed)

      find-renewed : secrets.find (secrets.put w renewed) tokens_key ≡ some renewed
      find-renewed =
          secret-IsQuiet.find-put w renewed tokens_key
          ∙ ap
              (λ b.
                if b
                then (if is_dead s.meta then none else some renewed)
                else secrets.find w tokens_key)
              (ap (λ n. same_key n tokens_key) (secret-IsQuiet.key-find tokens_key w s held)
                ∙ same_key_refl tokens_key)
          ∙ ap (λ b. if b then none else some renewed)
              (secret-IsQuiet.is_dead-find tokens_key w s held)

      version-renewed : secret_version renewed ≡ version
      version-renewed =
          secret_version-with_content host config.secret_source next_secret s token decoded placed d

      found-renewed :
          store.find
            (secrets.put w renewed)
            (key kube store M Q blank_name stored_lem host new_secret pr)
          ≡ some g
      found-renewed = apart w renewed _ ∙ found

      -- In a quiet cluster, which stores objects as it is sent them and in which secrets and
      -- GlideinSets are apart: the check of a handler whose GlideinSet has a manifest with a secret,
      -- which the manager serves with a version that can be cut to 63 bytes and a value that can be
      -- decoded, and whose token secret has data, ends without an error. If the token secret
      -- had another version, it is then updated with the value and the cut version; else nothing
      -- changes. getSecretSyncState then reads the cut version, and the next check changes nothing.
      pub check_handler_for_secret_update_lem :
          (resource : String)
          → (checked resource w ≡ (ok tt, settled))
            × (get_secret_sync_state kube host new_secret pr settled ≡ (ok version, settled))
            × (checked resource settled ≡ (ok tt, settled))
      unfolding apply_if_new pure
      check_handler_for_secret_update_lem resource =
          elim (Bool-cases (version == secret_version s)) [
            | inl same ↦
                let idle : checked resource w ≡ (ok tt, w) =
                  checked-apply_if_new resource w g s found known held ∙ rw same in
                rw same (
                  idle,
                  get_secret_sync_state_lem w s held
                      ∙ ap (λ v. (ok v, w)) (sym ((eq_iff version (secret_version s)).0 same)),
                  idle,
                )
            | inr differs ↦ rw differs (
              checked-apply_if_new resource w g s found known held
                  ∙ rw differs (
                      if_ok-ok
                        (apply_secret_update kube host new_secret pr config.secret_source
                          next_secret)
                        pure secret_write_lem),
              get_secret_sync_state_lem (secrets.put w renewed) renewed find-renewed
                  ∙ ap (λ v. (ok v, secrets.put w renewed)) version-renewed,
              checked-apply_if_new resource (secrets.put w renewed) g renewed found-renewed known
                    find-renewed
                  ∙ rw (version-renewed, eq_refl version),
            )
          ]
