-- ===== src/Tests/Startup.antt =====
-- The operator's start, its templates, its names and its files, and the stop of a poller.
use gmos_k8s_operator.Prelude.{
  ℕ, suc, String, ◌<>◌, ◌≡◌, ◌↔◌, refl, none, some, true, false, List, [], ◌∷◌, ◌⊎◌, if◌then◌else◌,
}
use gmos_k8s_operator.Text.{join, repeat}
use gmos_k8s_operator.Dict
use gmos_k8s_operator.Dict.{Dict}
use gmos_k8s_operator.Types.{Bytes, pos, negsuc, GlideinSet}
use gmos_k8s_operator.Host.{Host}
use gmos_k8s_operator.Exec.{ok, err, panic, message, pure, ◌>>=◌}
use gmos_k8s_operator.ResourceName.{rn_tokens, rn_collector_tokens, name_for}
use gmos_k8s_operator.ResourceName.Clashes.{name_for-clash_iff}
use gmos_k8s_operator.Manifest.{make_data_secret_template}
use gmos_k8s_operator.Manifest.Files.{is_file, content_of, file_at, make_data_secret_template_lem}
use gmos_k8s_operator.Poller.{Loops, no_loops, start_polling, stop_polling, LoopStep, here}
use gmos_k8s_operator.Poller.Progress.{stop_is_received}
use gmos_k8s_operator.Process.{ManagerOptions, Runtime, main}
use gmos_k8s_operator.Process.Namespaces.{
  get_watch_namespaces, any_has_comma, is_part, get_watch_namespaces_lem,
}
use gmos_k8s_operator.Process.Startup.{StartsLast, Prepared, main-StartsLast}
use gmos_k8s_operator.Template.{
  DataSecretTemplate, deployment, new_editor, get_initial_resource_value, editor_creator,
  editor_updater,
}
use gmos_k8s_operator.Template.Functions.{nindent, indented, nindent_lem}
use gmos_k8s_operator.Template.Editor.{editor_updater-editor_creator}
use gmos_k8s_operator.Tests.Cluster.{plain, osg, old_set}
use gmos_k8s_operator.Tests.Polling.{config}
use gmos_k8s_operator.Tests.Controllers.{host, no_secret, engine}

get_watch_namespaces_example :
    (watched : Dict (Unit {0})) × (parts : List String) × (get_watch_namespaces (some "osg,cms")
      ≡ ok watched)
    × ((n : String) → Dict.has_key n watched ≡ is_part n parts)
    × (join parts "," ≡ "osg,cms")
    × (any_has_comma parts ≡ false)
    × (get_watch_namespaces none ≡ err (message "WATCH_NAMESPACE must be set"))
get_watch_namespaces_example = get_watch_namespaces_lem "osg,cms"

-- A process with WATCH_NAMESPACE set, that counts what is added to its manager.
abbrev runtime : Runtime ℕ
runtime = record {
  Manager = ManagerOptions;
  must = λ m. m;
  add_client_types = λ n. (ok tt, n);
  add_to_scheme = λ builder n. (ok tt, n);
  parse_flags = λ flags n. (ok flags, n);
  lookup_env = λ name n. some "osg";
  new_manager = λ options n. (ok options, n);
  complete_controller = λ mgr kind n. (ok tt, suc n);
  add_healthz_check = λ mgr name n. (ok tt, suc n);
  add_readyz_check = λ mgr name n. (ok tt, suc n);
  start = λ mgr n. (ok tt, n);
}

main-StartsLast_example :
    StartsLast (Prepared runtime 0) (λ start. main (record runtime { start = start })) 0
main-StartsLast_example = main-StartsLast runtime 0

nindent_example :
    (nindent (pos 2) "a: 1\nb: 2\n" ≡ ok (indented (repeat " " 2) "a: 1\nb: 2\n"))
    × (nindent (negsuc 2) "a: 1\nb: 2\n" ≡ panic)
nindent_example = nindent_lem 2 "a: 1\nb: 2\n"

-- What the margin does to that text.
indented-two : indented (repeat " " 2) "a: 1\nb: 2\n" ≡ "a: 1\n  b: 2\n  "
unfolding indented
indented-two = refl

editor_updater-editor_creator_example :
    (editor_updater engine
        (get_initial_resource_value engine
          (new_editor engine (deployment old_set) "kind: Deployment")).1).update_resource_value
      no_secret
    ≡ ((editor_creator engine
              (get_initial_resource_value engine
                (new_editor engine (deployment old_set) "kind: Deployment")).1).set_resource_value
            (osg "pilots-old")
          >>= λ _. pure true)
        no_secret
editor_updater-editor_creator_example =
    editor_updater-editor_creator engine (deployment old_set) "kind: Deployment" (osg "pilots-old")
      no_secret

-- One directory, with a file and a subdirectory.
abbrev disk : Host
disk = record host {
  read_dir = λ path.
      ok (record { name = "run.sh"; is_dir = false } ∷ record { name = "old"; is_dir = true } ∷ []);
}

abbrev synced_set : GlideinSet plain
synced_set = record old_set { remote_manifest = some config }

abbrev made_template : DataSecretTemplate
made_template = record {
  name = "pilots-old";
  namespace = "osg";
  content = some (("run.sh", []) ∷ []);
}

template_made : make_data_secret_template disk synced_set ≡ ok made_template
unfolding make_data_secret_template Dict.insert
template_made = refl

make_data_secret_template_example :
    (made_template.name ≡ synced_set.meta.name)
    × (made_template.namespace ≡ synced_set.meta.namespace)
    × (files : Dict Bytes) × (made_template.content ≡ some files)
    × ((n : String)
        → Dict.lookup n files ≡ (
            if is_file n (
              record { name = "run.sh"; is_dir = false }
              ∷ record { name = "old"; is_dir = true }
              ∷ [])
            then content_of (file_at disk "/tmp/repo" "data" n)
            else none))
make_data_secret_template_example =
    make_data_secret_template_lem disk synced_set config
      (record { name = "run.sh"; is_dir = false } ∷ record { name = "old"; is_dir = true } ∷ [])
      made_template refl refl template_made

name_for-clash_iff_example :
    (name_for rn_tokens (osg "pilots-collector") ≡ name_for rn_collector_tokens (osg "pilots"))
    ↔ (◌≡◌ {A = String} "pilots-collector" ("pilots" <> "-collector"))
name_for-clash_iff_example = name_for-clash_iff (osg "pilots-collector") (osg "pilots")

stop_is_received_example :
    ((stop_polling (start_polling no_loops)).senders ≡ 0)
    ⊎ ((n : Loops) × LoopStep (stop_polling (start_polling no_loops)) n × (n.senders ≡ 0))
stop_is_received_example = stop_is_received here here
