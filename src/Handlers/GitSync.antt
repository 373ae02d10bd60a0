-- ===== src/Handlers/GitSync.antt =====
-- A Git update as a poller brings it to a GlideinSet: what is written and what is then read.
use gmos_k8s_operator.Prelude.{String, ◌≡◌, ap, ◌∙◌, none, some, true, eq_refl, if◌then◌else◌}
use gmos_k8s_operator.Exec.{
  Exec, Result, Cell, ok, pure, attempt, with_new, gets, ◌>>=◌, bind-ok, attempt-ok, if_ok-ok,
}
use gmos_k8s_operator.Types.{K8s, NamespacedName, Secret, GlideinSet, PilotSetNamespaceConfig}
use gmos_k8s_operator.ResourceName.{rn_base, name_for}
use gmos_k8s_operator.Kube.{Kube, glidein_set_meta}
use gmos_k8s_operator.Kube.Quiet.{Store, IsMetaApi, IsQuiet, same_key, same_key_refl, is_dead}
use gmos_k8s_operator.ApiUtil.{
  PilotSetReconcileState, child_key, get_resource_value, apply_update_to_resource,
}
use gmos_k8s_operator.Kube.Kinds.{Every, IsQuiet-IsQuietFor}
use gmos_k8s_operator.ApiUtil.Upsert.{resolved_name-new, apply-some}
use gmos_k8s_operator.Host.{Host, RepoUpdate}
use gmos_k8s_operator.Manifest.{read_manifest_for_namespace, at_commit, glidein_set_git_updater}
use gmos_k8s_operator.Poller.Checks.{at_commit?, ManagerClient, check_handler_for_git_update}
use gmos_k8s_operator.Handlers.{update_err_ok, apply_git_update, get_git_sync_state, update_handler}

module _ {k : K8s} (kube : Kube k) (store : Store kube.Cluster (GlideinSet k))
    (M : IsMetaApi (glidein_set_meta k) kube.glidein_sets)
    (Q : IsQuiet (glidein_set_meta k) kube.is_not_found kube.glidein_sets store)
    (blank_name : kube.new_glidein_set.meta.name ≡ "")
    (stored_lem : (g : GlideinSet k) → store.stored g ≡ g) (host : Host) (new_secret : Secret)
    (pr : PilotSetReconcileState) where
  abbrev pub key : NamespacedName
  key = child_key pr (name_for rn_base pr.resource)

  pub get_git_sync_state_lem :
      (w : kube.Cluster) (g : GlideinSet k)
      → store.find w key ≡ some g
      → get_git_sync_state kube host new_secret pr w ≡ (ok g.remote_manifest, w)
  unfolding get_git_sync_state get_resource_value with_new gets ◌>>=◌
  get_git_sync_state_lem w g found = rw (Q.get-some key kube.new_glidein_set w g found)

  module _ (update : RepoUpdate) (config : PilotSetNamespaceConfig) (w : kube.Cluster)
      (g : GlideinSet k) (found : store.find w key ≡ some g)
      (read : read_manifest_for_namespace host update g.meta.namespace ≡ ok config) where
    -- The GlideinSet with the manifest of that commit.
    abbrev pub synced : GlideinSet k
    synced = record g { remote_manifest = some (at_commit host update config) }

    git_updater_lem :
        (glidein_set_git_updater host k update).update_resource_value g ≡ (ok true, synced)
    unfolding glidein_set_git_updater ◌>>=◌
    git_updater_lem = rw read

    git_write : Exec kube.Cluster (Unit {0})
    git_write = with_new kube.new_glidein_set (
        apply_update_to_resource kube.glidein_sets kube.is_not_found pr rn_base
          (glidein_set_git_updater host k update))

    git_write_lem : git_write w ≡ (ok tt, store.put w synced)
    unfolding git_write with_new
    git_write_lem =
        ap (λ (p : Result (Unit {0}) × Cell (GlideinSet k) kube.Cluster). (p.0, p.1.world))
          (apply-some (glidein_set_meta k) kube.is_not_found kube.glidein_sets store M Every
            (IsQuiet-IsQuietFor Q) pr rn_base (name_for rn_base pr.resource)
            (glidein_set_git_updater host k update) kube.new_glidein_set w g synced
            (resolved_name-new (glidein_set_meta k) kube.is_not_found kube.glidein_sets store M Q pr
              rn_base kube.new_glidein_set blank_name)
            found tt tt git_updater_lem (Q.key-find _ w g found))
        ∙ ap (λ v. (ok tt, store.put w v)) (stored_lem synced)

    pub apply_git_update_lem :
        apply_git_update kube host new_secret pr update w ≡ (ok tt, store.put w synced)
    unfolding apply_git_update git_write update_err_ok pure
    apply_git_update_lem = bind-ok (attempt git_write) _ (attempt-ok git_write git_write_lem)

    pub find-synced : store.find (store.put w synced) key ≡ some synced
    find-synced =
        Q.find-put w synced key
        ∙ ap (λ b. if b then (if is_dead g.meta then none else some synced) else store.find w key)
            (ap (λ n. same_key n key) (Q.key-find key w g found) ∙ same_key_refl key)
        ∙ ap (λ b. if b then none else some synced) (Q.is_dead-find key w g found)

    -- In a quiet cluster, which stores objects as it is sent them, that holds the GlideinSet, and
    -- where its manifest can be read at this update, applyGitUpdate succeeds. getGitSyncState
    -- then reads that manifest with the update's path and commits, and the next check for the
    -- same update changes nothing.
    pub apply_git_update-get_git_sync_state :
        (client : ManagerClient kube.Cluster) (resource : String)
        → (apply_git_update kube host new_secret pr update w ≡ (ok tt, store.put w synced))
          × (get_git_sync_state kube host new_secret pr (store.put w synced)
              ≡ (ok (some (at_commit host update config)), store.put w synced))
          × (check_handler_for_git_update client update
                (resource, update_handler kube host new_secret pr)
                (store.put w synced)
              ≡ (ok tt, store.put w synced))
    unfolding check_handler_for_git_update at_commit? at_commit pure
    apply_git_update-get_git_sync_state client resource = (
      apply_git_update_lem,
      get_git_sync_state_lem (store.put w synced) synced find-synced,
      if_ok-ok (get_git_sync_state kube host new_secret pr) _
            (get_git_sync_state_lem (store.put w synced) synced find-synced)
          ∙ rw (eq_refl update.current_commit),
    )
