-- ===== src/Tests/Controllers.antt =====
-- A GlideinSet whose repository is there or is missing.
use gmos_k8s_operator.Prelude.{String, ◌≡◌, ◌≢◌, refl, none, some, true, [], ◌∷◌}
use gmos_k8s_operator.Exec.{message, ok, err}
use gmos_k8s_operator.Types.{Secret, GlideinSet}
use gmos_k8s_operator.ResourceName.{rn_base, name_for}
use gmos_k8s_operator.ApiUtil.{PilotSetReconcileState, child_key}
use gmos_k8s_operator.Host.{Host, RepoUpdate}
use gmos_k8s_operator.Template.{Engine}
use gmos_k8s_operator.Manifest.{find_config, read_manifest_for_namespace, at_commit}
use gmos_k8s_operator.Poller.Checks.{ManagerClient, check_handler_for_git_update}
use gmos_k8s_operator.Handlers.{apply_git_update, get_git_sync_state, update_handler}
use gmos_k8s_operator.Handlers.GitSync.{apply_git_update-get_git_sync_state}
use gmos_k8s_operator.GlideinSets.{Operator, work_on_glidein_set}
use gmos_k8s_operator.GlideinSets.MissingClone.{work-missing_clone}
use gmos_k8s_operator.Tests.Memory.{Memory, memory_store, memory-IsMetaApi, memory-IsQuiet}
use gmos_k8s_operator.Tests.Cluster.{plain, no_meta, osg, sets, kube, before, old_set}
use gmos_k8s_operator.Tests.Polling.{config}

-- A host on which the manifest can be read, and no directory.
abbrev pub host : Host
host = record {
  read_file = λ path. ok [];
  read_dir = λ path. err (message "ErrNotExist");
  join_path = λ parts. "/tmp/repo";
  is_not_exist = λ e. true;
  unmarshal_manifest = λ text. ok (record { version = "1"; manifests = config ∷ [] });
  decode_base64 = λ text. ok [];
}

abbrev pub no_secret : Secret
no_secret = record { meta = no_meta; content = none; string_data = none }

abbrev pub engine : Engine plain Secret
engine = record {
  Template = String;
  Value = String;
  marshal = λ v. ok v;
  encode_base64 = λ b. "";
  parse = λ funcs text. ok text;
  execute = λ tmpl d. ok [];
  decode_new = λ text. ok no_secret;
  decode_into = λ text secret. (ok tt, secret);
}

abbrev pub operator : Operator (Memory sets)
operator = record {
  cluster = before;
  watchers = record { active = []; detached = [] };
  collector_clients = record { active = []; removed = [] };
}

abbrev with_manifest : GlideinSet plain
with_manifest = record old_set { remote_manifest = some config }

work-missing_clone_example :
    ((work_on_glidein_set kube host no_secret engine "kind: Deployment" "kind: Secret"
        (some "k8s")
        []
        with_manifest
        operator).1.watchers
      ≡ operator.watchers)
    × ((work_on_glidein_set kube host no_secret engine "kind: Deployment" "kind: Secret"
          (some "k8s")
          []
          with_manifest
          operator).1.collector_clients
        ≡ operator.collector_clients)
    × ((work_on_glidein_set kube host no_secret engine "kind: Deployment" "kind: Secret"
          (some "k8s")
          []
          with_manifest
          operator).0
        ≢ ok tt)
work-missing_clone_example =
    work-missing_clone kube host no_secret engine "kind: Deployment" "kind: Secret" with_manifest
      config (message "ErrNotExist") refl refl (some "k8s") [] operator

abbrev pub pilots_state : PilotSetReconcileState
pilots_state = record { resource = osg "pilots-old" }

-- The manager's client is not called here.
abbrev pub idle_client : ManagerClient (Memory sets)
idle_client = record {
  sync_repo = λ w. (err (message "unreachable"), w);
  get_secret = λ name w. (err (message "unreachable"), w);
  do_handshake = λ port w. (err (message "unreachable"), w);
}

abbrev pub update : RepoUpdate
update = record { path = "/tmp/repo"; current_commit = "b2"; previous_commit = "a1" }

old_set_found :
    (memory_store sets).find before (child_key pilots_state (name_for rn_base (osg "pilots-old")))
    ≡ some old_set
unfolding name_for
old_set_found = refl

manifest_read : read_manifest_for_namespace host update "osg" ≡ ok config
unfolding read_manifest_for_namespace find_config
manifest_read = refl

apply_git_update-get_git_sync_state_example :
    (apply_git_update kube host no_secret pilots_state update before ≡ (
      ok tt,
      (memory_store sets).put before
          (record old_set { remote_manifest = some (at_commit host update config) }),
    ))
    × (get_git_sync_state kube host no_secret pilots_state (
          (memory_store sets).put before
            (record old_set { remote_manifest = some (at_commit host update config) }))
        ≡ (
          ok (some (at_commit host update config)),
          (memory_store sets).put before
              (record old_set { remote_manifest = some (at_commit host update config) }),
        ))
    × (check_handler_for_git_update idle_client update
          ("osg/pilots-old", update_handler kube host no_secret pilots_state)
          ((memory_store sets).put before
            (record old_set { remote_manifest = some (at_commit host update config) }))
        ≡ (
          ok tt,
          (memory_store sets).put before
              (record old_set { remote_manifest = some (at_commit host update config) }),
        ))
apply_git_update-get_git_sync_state_example =
    apply_git_update-get_git_sync_state kube (memory_store sets) (memory-IsMetaApi sets λ m g. refl)
      (memory-IsQuiet sets) refl (λ g. refl) host no_secret pilots_state update config before
      old_set old_set_found manifest_read idle_client "osg/pilots-old"
