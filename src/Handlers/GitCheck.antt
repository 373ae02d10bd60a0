-- ===== src/Handlers/GitCheck.antt =====
-- The Git check of one handler on a quiet cluster.
use gmos_k8s_operator.Prelude.{
  String, ◌≡◌, ◌≢◌, refl, sym, ap, ◌∙◌, none, some, false, inl, inr, Bool-cases, Option-cases,
  if◌then◌else◌,
}
use mathlib.Core.Path.{subst}
use gmos_k8s_operator.Exec.{
  Error, Exec, Result, ok, err, panic, pure, raise, attempt, check, with_new, gets, if_ok, ◌>>=◌,
  bind-ok, attempt-err, if_ok-ok, if_ok-err,
}
use gmos_k8s_operator.Types.{K8s, NamespacedName, Secret, GlideinSet, PilotSetNamespaceConfig}
use gmos_k8s_operator.ResourceName.{rn_base}
use gmos_k8s_operator.Kube.{Kube, glidein_set_meta}
use gmos_k8s_operator.Kube.Quiet.{Store, IsMetaApi, IsQuiet, same_key, same_key_iff, is_dead}
use gmos_k8s_operator.ApiUtil.{PilotSetReconcileState, get_resource_value, apply_update_to_resource}
use gmos_k8s_operator.ApiUtil.Upsert.{resolved_name-new}
use gmos_k8s_operator.Host.{Host, RepoUpdate}
use gmos_k8s_operator.Manifest.{read_manifest_for_namespace, at_commit, glidein_set_git_updater}
use gmos_k8s_operator.Poller.Checks.{at_commit?, ManagerClient, check_handler_for_git_update}
use gmos_k8s_operator.Handlers.{update_err_ok, apply_git_update, get_git_sync_state, update_handler}
use gmos_k8s_operator.Handlers.UpdateSpec.{map_updated}
use gmos_k8s_operator.Handlers.GitSync.{key, get_git_sync_state_lem, apply_git_update_lem}

module _ {k : K8s} (kube : Kube k) (store : Store kube.Cluster (GlideinSet k))
    (M : IsMetaApi (glidein_set_meta k) kube.glidein_sets)
    (Q : IsQuiet (glidein_set_meta k) kube.is_not_found kube.glidein_sets store)
    (blank_name : kube.new_glidein_set.meta.name ≡ "")
    (stored_lem : (g : GlideinSet k) → store.stored g ≡ g) (host : Host) (new_secret : Secret)
    (update : RepoUpdate)
    (no_panic : (namespace : String) → read_manifest_for_namespace host update namespace ≢ panic)
    (client : ManagerClient kube.Cluster) where
  module _ (pr : PilotSetReconcileState) where
    abbrev pub key_at : NamespacedName
    key_at = key kube store M Q blank_name stored_lem host new_secret pr

    -- The check of one handler ends without an error, and leaves this.
    abbrev pub Checked : kube.Cluster → Result (Unit {0}) × kube.Cluster → Type 0
    Checked w p =
        (p.0 ≡ ok tt)
        × ((n : NamespacedName)
            → store.find p.1 n ≡ (
                if same_key key_at n
                then map_updated host update (store.find w n)
                else store.find w n))

    Checked-same :
        (w : kube.Cluster)
        → map_updated host update (store.find w key_at) ≡ store.find w key_at
        → Checked w (ok tt, w)
    Checked-same w h = (
      refl,
      λ n. elim (Bool-cases (same_key key_at n)) [
        | inl same ↦ rw same (
            sym (
              subst
                (λ (m : NamespacedName). map_updated host update (store.find w m) ≡ store.find w m)
                ((same_key_iff key_at n).0 same) h))
        | inr other ↦ rw other
      ],
    )

    get_git_sync_state-none :
        (w : kube.Cluster)
        → store.find w key_at ≡ none
        → get_git_sync_state kube host new_secret pr w ≡ (err (store.absent key_at), w)
    unfolding get_git_sync_state get_resource_value with_new gets ◌>>=◌
    get_git_sync_state-none w missing = rw (Q.get-none key_at kube.new_glidein_set w missing)

    module _ (w : kube.Cluster) (g : GlideinSet k) (found : store.find w key_at ≡ some g)
        (away : at_commit? update g.remote_manifest ≡ false) where
      Checked-written :
          (config : PilotSetNamespaceConfig)
          → read_manifest_for_namespace host update g.meta.namespace ≡ ok config
          → Checked w (if_ok (apply_git_update kube host new_secret pr update) pure w)
      unfolding pure
      Checked-written config read =
          let g' : GlideinSet k = record g {
            remote_manifest = some (at_commit host update config);
          } in
          rw
            (if_ok-ok (apply_git_update kube host new_secret pr update) pure (
              apply_git_update_lem kube store M Q blank_name stored_lem host new_secret pr update
                config w g found read))
            (
              refl,
              λ n.
                  Q.find-put w g' n
                  ∙ ap
                      (λ m.
                        if same_key m n
                        then (if is_dead g.meta then none else some g')
                        else store.find w n)
                      (Q.key-find key_at w g found)
                  ∙ ap
                      (λ b.
                        if same_key key_at n then (if b then none else some g') else store.find w n)
                      (Q.is_dead-find key_at w g found)
                  ∙ elim (Bool-cases (same_key key_at n)) [
                    | inl same ↦
                        let here : store.find w n ≡ some g =
                          subst (λ (m : NamespacedName). store.find w m ≡ some g)
                            ((same_key_iff key_at n).0 same) found in
                        rw (same, here, away, read)
                    | inr other ↦ rw other
                  ],
            )

      unread_update :
          (e : Error)
          → read_manifest_for_namespace host update g.meta.namespace ≡ err e
          → if_ok (apply_git_update kube host new_secret pr update) pure w ≡ (ok tt, w)
      unfolding apply_git_update with_new attempt update_err_ok check apply_update_to_resource
          glidein_set_git_updater pure raise ◌>>=◌ if_ok
      unread_update e read =
          let m : Exec kube.Cluster (Unit {0}) = with_new kube.new_glidein_set (
            apply_update_to_resource kube.glidein_sets kube.is_not_found pr rn_base
              (glidein_set_git_updater host k update)) in
          let failed : m w ≡ (err e, w) = rw (
            resolved_name-new (glidein_set_meta k) kube.is_not_found kube.glidein_sets store M Q pr
                rn_base kube.new_glidein_set blank_name,
            Q.get-some key_at kube.new_glidein_set w g found,
            read,
          ) in
          let raised : apply_git_update kube host new_secret pr update w ≡ _ =
            bind-ok (attempt m) _ (attempt-err m failed) in
          rw raised (elim (Bool-cases (kube.is_not_found e)) [ inl h ↦ rw h | inr h ↦ rw h ])

      Checked-read :
          (r : Result PilotSetNamespaceConfig)
          → read_manifest_for_namespace host update g.meta.namespace ≡ r
          → Checked w (if_ok (apply_git_update kube host new_secret pr update) pure w)
      Checked-read (ok config) read = Checked-written config read
      Checked-read (err e) read =
          rw (unread_update e read) (Checked-same w (rw found (ap some (rw (away, read)))))
      Checked-read panic read = absurd (no_panic g.meta.namespace read)

    pub Checked-handler :
        (resource : String) (w : kube.Cluster)
        → Checked w (
            check_handler_for_git_update client update
              (resource, update_handler kube host new_secret pr)
              w)
    unfolding check_handler_for_git_update pure
    Checked-handler resource w = elim (Option-cases (store.find w key_at)) [
      | inl missing ↦
          rw
            (if_ok-err (get_git_sync_state kube host new_secret pr) _
              (get_git_sync_state-none w missing))
            (Checked-same w (rw missing))
      | inr (g, found) ↦
          rw
            (if_ok-ok (get_git_sync_state kube host new_secret pr) _ (
              get_git_sync_state_lem kube store M Q blank_name stored_lem host new_secret pr w g
                found))
            (elim (Bool-cases (at_commit? update g.remote_manifest)) [
              | inl there ↦ rw there (Checked-same w (rw found (ap some (rw there))))
              | inr away ↦ rw away (Checked-read w g found away _ refl)
            ])
    ]
