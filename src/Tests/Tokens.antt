-- ===== src/Tests/Tokens.antt =====
-- The tokens of a GlideinSet: the collector's, and the one that its manager serves.
use mathlib.Core.Option
use gmos_k8s_operator.Prelude.{
  if◌then◌else◌, String, ◌≡◌, ◌≢◌, refl, none, some, true, ◌||◌, [], ◌∷◌, arith, ◌==◌,
}
use gmos_k8s_operator.Dict
use gmos_k8s_operator.Dict.{Dict}
use gmos_k8s_operator.Exec.{ok}
use gmos_k8s_operator.Types.{Bytes, Secret, PilotSetSecretSource}
use gmos_k8s_operator.Host.{SecretValue}
use gmos_k8s_operator.Schemas.{empty_map_key, empty_secret_creator, token_secret_value_updater}
use gmos_k8s_operator.Handlers.{secret_version, decide_update}
use gmos_k8s_operator.Handlers.Tokens.{IsSecretServer, renewals, decide_update-renewals}
use gmos_k8s_operator.Handlers.TokenSecret.{token_secret_value_updater_lem}
use gmos_k8s_operator.FilePath.{split}
use gmos_k8s_operator.Tests.Cluster.{osg, kube, before}
use gmos_k8s_operator.Tests.Controllers.{host, no_secret, pilots_state}

-- stringData, written into data.
abbrev merge : Dict String → Dict Bytes → Dict Bytes
merge [] d = d
merge ((k, v) ∷ s) d = Dict.insert k [] (merge s d)

abbrev server : Secret → Secret
server secret = record secret {
  content = some (merge (Option.get_or secret.string_data []) (Option.get_or secret.content []));
  string_data = none;
}

has_key-cons :
    (k j v : String) (s : Dict String) → Dict.has_key k ((j, v) ∷ s) ≡ (j == k || Dict.has_key k s)
unfolding Dict.has_key Dict.lookup
has_key-cons k j v s = ground arith

has_key-merge :
    (k : String) (s : Dict String) (d : Dict Bytes)
    → Dict.has_key k (merge s d) ≡ (Dict.has_key k s || Dict.has_key k d)
has_key-merge k [] d = unfold Dict.has_key Dict.lookup in refl
has_key-merge k ((j, v) ∷ s) d =
    ground
      (arith, Dict.has_key-insert k j [] (merge s d), has_key-merge k s d, has_key-cons k j v s)

server-IsSecretServer : IsSecretServer server
server-IsSecretServer = record {
  has_key-server =
      λ k s. has_key-merge k (Option.get_or s.string_data []) (Option.get_or s.content []);
}

decide_update-renewals_example :
    decide_update kube host no_secret pilots_state
      (
        none,
        renewals server server-IsSecretServer
            ("t1" ∷ "t2" ∷ [])
            (empty_secret_creator.set_resource_value (osg "pilots-old") no_secret).1,
      )
      (none, no_secret)
      before
    ≡ (ok true, before)
decide_update-renewals_example =
    decide_update-renewals server server-IsSecretServer kube host no_secret pilots_state
      (osg "pilots-old") no_secret no_secret ("t1" ∷ "t2" ∷ []) before

abbrev source : PilotSetSecretSource
source = record { secret_name = "token"; dst = "/etc/tokens/tk" }

abbrev version_7 : SecretValue
version_7 = record { name = "token"; value = ""; version = "7" }

-- The secret as the operator created it.
abbrev new_token_secret : Secret
new_token_secret = record no_secret { content = some ((empty_map_key, []) ∷ []) }

source_placed : source.dst ≢ ""
source_placed h = cc

token_secret_value_updater_example :
    (((token_secret_value_updater host source version_7).update_resource_value new_token_secret).0
      ≡ ok true)
    × (secret_version
          ((token_secret_value_updater host source version_7).update_resource_value
            new_token_secret).1
        ≡ "7")
    × ((k : String)
        → Dict.lookup k (
            Option.get_or
              ((token_secret_value_updater host source version_7).update_resource_value
                new_token_secret).1.content
              [])
          ≡ (if empty_map_key == k
              then none
              else (if (split "/etc/tokens/tk").1 == k
                  then some []
                  else Dict.lookup k ((empty_map_key, []) ∷ []))))
token_secret_value_updater_example =
    token_secret_value_updater_lem host source version_7 new_token_secret [] refl source_placed
      ((empty_map_key, []) ∷ []) refl
