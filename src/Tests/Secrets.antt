-- ===== src/Tests/Secrets.antt =====
-- A secret that a poller brings to a GlideinSet.
use gmos_k8s_operator.Prelude.{String, ◌≡◌, ◌≢◌, refl, none, some, [], ◌∷◌}
use gmos_k8s_operator.Types.{Secret, GlideinSet}
use gmos_k8s_operator.Host.{SecretValue}
use gmos_k8s_operator.Exec.{message, ok, err}
use gmos_k8s_operator.ResourceName.{rn_base, rn_tokens, name_for}
use gmos_k8s_operator.Kube.{secret_meta}
use gmos_k8s_operator.ApiUtil.{child_key}
use gmos_k8s_operator.Poller.Checks.{
  max_label_length, prefix, ManagerClient, check_handler_for_secret_update,
}
use gmos_k8s_operator.Schemas.{empty_map_key}
use gmos_k8s_operator.Dict
use gmos_k8s_operator.Handlers.TokenSecret.{with_content}
use gmos_k8s_operator.Handlers.{secret_version, get_secret_sync_state, update_handler}
use gmos_k8s_operator.Handlers.SecretSync.{check_handler_for_secret_update_lem}
use gmos_k8s_operator.Tests.Memory.{memory_store, memory-IsMetaApi, memory-IsQuiet}
use gmos_k8s_operator.Tests.Cluster.{plain, sets, osg, old_set}
use gmos_k8s_operator.Tests.Polling.{config}
use gmos_k8s_operator.Tests.Controllers.{host, no_secret, pilots_state}
use gmos_k8s_operator.Tests.Part.{
  part_store, part-IsMetaApi, part-IsQuiet, World, of_sets, of_secrets, both,
}

abbrev pub known_set : GlideinSet plain
known_set = record old_set { remote_manifest = some config }

-- The token secret as the operator created it.
abbrev pub token_secret : Secret
token_secret = record no_secret {
  meta = osg (name_for rn_tokens (osg "pilots-old"));
  content = some ((empty_map_key, []) ∷ []);
}

abbrev pub world : World
world = (
  (memory_store sets).put (λ n. none) known_set,
  (memory_store secret_meta).put (λ n. none) token_secret,
)

-- A version of 64 bytes: the hash of the secret.
abbrev pub served_secret : SecretValue
served_secret = record {
  name = "token";
  value = "c2VjcmV0";
  version = "aaaaaaaabbbbbbbbccccccccddddddddeeeeeeeeffffffff0000000011111111";
}

abbrev pub cut_version : String
cut_version = "aaaaaaaabbbbbbbbccccccccddddddddeeeeeeeeffffffff000000001111111"

abbrev pub serving : ManagerClient World
serving = record {
  sync_repo = λ w. (err (message "unreachable"), w);
  get_secret = λ name w. (ok served_secret, w);
  do_handshake = λ port w. (ok tt, w);
}

pub version_cut : prefix served_secret.version max_label_length ≡ ok cut_version
unfolding prefix
version_cut = refl

pub named : config.secret_source.secret_name ≢ ""
named h = cc

pub placed : config.secret_source.dst ≢ ""
placed h = cc

set_found :
    (part_store of_sets (memory_store sets)).find world
      (child_key pilots_state (name_for rn_base pilots_state.resource))
    ≡ some known_set
unfolding name_for
set_found = refl

secret_found :
    (part_store of_secrets (memory_store secret_meta)).find world
      (child_key pilots_state (name_for rn_tokens pilots_state.resource))
    ≡ some token_secret
unfolding name_for
secret_found = refl

abbrev after : World
after = (
  world.0,
  (memory_store secret_meta).put world.1 (
      with_content host config.secret_source (record served_secret { version = cut_version })
        token_secret [] refl placed ((empty_map_key, []) ∷ [])),
)

check_handler_for_secret_update_example :
    (check_handler_for_secret_update serving
        ("osg/pilots-old", update_handler both host no_secret pilots_state)
        world
      ≡ (ok tt, after))
    × (get_secret_sync_state both host no_secret pilots_state after ≡ (ok cut_version, after))
    × (check_handler_for_secret_update serving
          ("osg/pilots-old", update_handler both host no_secret pilots_state)
          after
        ≡ (ok tt, after))
unfolding secret_version Dict.lookup
check_handler_for_secret_update_example =
    check_handler_for_secret_update_lem both (part_store of_sets (memory_store sets))
      (part-IsMetaApi of_sets (memory-IsMetaApi sets λ m g. refl))
      (part-IsQuiet of_sets (memory-IsQuiet sets)) refl (λ g. refl)
      (part_store of_secrets (memory_store secret_meta))
      (part-IsMetaApi of_secrets (memory-IsMetaApi secret_meta λ m g. refl))
      (part-IsQuiet of_secrets (memory-IsQuiet secret_meta)) no_secret refl (λ s. refl)
      (λ w s n. refl) host pilots_state serving config served_secret cut_version named placed
      (λ w. refl) version_cut [] refl world known_set token_secret ((empty_map_key, []) ∷ [])
      set_found refl secret_found refl "osg/pilots-old"
