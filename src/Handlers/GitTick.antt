-- ===== src/Handlers/GitTick.antt =====
-- A whole Git check of a poller on a quiet cluster, and its specification.
use gmos_k8s_operator.Prelude.{String, ◌≡◌, ◌≢◌, Bool, false, ◌||◌, List, [], ◌∷◌}
use gmos_k8s_operator.Dict.{Dict}
use gmos_k8s_operator.Exec.{panic}
use gmos_k8s_operator.Types.{K8s, NamespacedName, Secret, GlideinSet}
use gmos_k8s_operator.Kube.{Kube, glidein_set_meta}
use gmos_k8s_operator.Kube.Quiet.{Store, IsMetaApi, IsQuiet, same_key}
use gmos_k8s_operator.ApiUtil.{PilotSetReconcileState}
use gmos_k8s_operator.Host.{Host, RepoUpdate}
use gmos_k8s_operator.Manifest.{read_manifest_for_namespace}
use gmos_k8s_operator.Poller.Checks.{ManagerClient, UpdateHandler}
use gmos_k8s_operator.Handlers.{update_handler}
use gmos_k8s_operator.Handlers.GitCheck.{key_at}

module _ {k : K8s} (kube : Kube k) (store : Store kube.Cluster (GlideinSet k))
    (M : IsMetaApi (glidein_set_meta k) kube.glidein_sets)
    (Q : IsQuiet (glidein_set_meta k) kube.is_not_found kube.glidein_sets store)
    (blank_name : kube.new_glidein_set.meta.name ≡ "")
    (stored_lem : (g : GlideinSet k) → store.stored g ≡ g) (host : Host) (new_secret : Secret)
    (update : RepoUpdate)
    (no_panic : (namespace : String) → read_manifest_for_namespace host update namespace ≢ panic)
    (client : ManagerClient kube.Cluster) where
  abbrev watched_key : PilotSetReconcileState → NamespacedName
  watched_key = key_at kube store M Q blank_name stored_lem host new_secret update no_panic client

  -- The poller's handlers, each with the GlideinSet for which it was registered.
  abbrev pub handlers_of :
      List (String × PilotSetReconcileState) → Dict (UpdateHandler kube.Cluster)
  handlers_of [] = []
  handlers_of ((resource, pr) ∷ regs) =
      (resource, update_handler kube host new_secret pr) ∷ handlers_of regs

  abbrev pub is_watched : List (String × PilotSetReconcileState) → NamespacedName → Bool
  is_watched [] n = false
  is_watched ((resource, pr) ∷ regs) n = same_key (watched_key pr) n || is_watched regs n
