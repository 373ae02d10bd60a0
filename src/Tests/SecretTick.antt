-- ===== src/Tests/SecretTick.antt =====
-- A tick of a poller with two handlers, one of which is up to date.
use gmos_k8s_operator.Prelude.{◌≡◌, refl, Option, some, List, [], ◌∷◌}
use gmos_k8s_operator.Dict
use gmos_k8s_operator.Types.{Secret, GlideinSet, NamespacedName}
use gmos_k8s_operator.Exec.{ok}
use gmos_k8s_operator.ResourceName.{rn_tokens, name_for}
use gmos_k8s_operator.Kube.{secret_meta}
use gmos_k8s_operator.Kube.Quiet.{Store}
use gmos_k8s_operator.ApiUtil.{PilotSetReconcileState}
use gmos_k8s_operator.Poller.Checks.{UpdateHandler, check_for_secret_updates}
use gmos_k8s_operator.Schemas.{empty_map_key}
use gmos_k8s_operator.Handlers.SecretTick.{
  Serves, Registration, AllHold, registered_handlers, checked_in, check_for_secret_updates_lem,
}
use gmos_k8s_operator.Tests.Memory.{memory_store, memory-IsMetaApi, memory-IsQuiet}
use gmos_k8s_operator.Tests.Cluster.{plain, sets, osg}
use gmos_k8s_operator.Tests.Polling.{config}
use gmos_k8s_operator.Tests.Controllers.{host, no_secret, pilots_state}
use gmos_k8s_operator.Tests.Part.{
  part_store, part-IsMetaApi, part-IsQuiet, World, of_sets, of_secrets, both,
}
use gmos_k8s_operator.Tests.Secrets.{
  known_set, token_secret, world, served_secret, cut_version, serving, version_cut, named, placed,
}

-- A second GlideinSet, whose token secret has the served version.
abbrev other_set : GlideinSet plain
other_set = record known_set { meta = osg "others" }

abbrev other_state : PilotSetReconcileState
other_state = record { resource = osg "others" }

abbrev other_secret : Secret
other_secret = record no_secret {
  meta = record (osg (name_for rn_tokens (osg "others"))) {
    labels = some (("gmos.chtc.wisc.edu/secret-version", cut_version) ∷ []);
  };
  content = some (("tk", []) ∷ []);
}

abbrev two_sets : World
two_sets =
    ((memory_store sets).put world.0 other_set, (memory_store secret_meta).put world.1 other_secret)

abbrev set_store : Store World (GlideinSet plain)
set_store = part_store of_sets (memory_store sets)

abbrev secret_store : Store World Secret
secret_store = part_store of_secrets (memory_store secret_meta)

abbrev ServesIn : PilotSetReconcileState → Type 0
ServesIn =
    Serves both set_store (part-IsMetaApi of_sets (memory-IsMetaApi sets λ m g. refl))
      (part-IsQuiet of_sets (memory-IsQuiet sets)) refl (λ g. refl) secret_store
      (part-IsMetaApi of_secrets (memory-IsMetaApi secret_meta λ m s. refl))
      (part-IsQuiet of_secrets (memory-IsQuiet secret_meta)) no_secret refl (λ s. refl)
      (λ w s n. refl) host serving

abbrev RegistrationIn : Type 0
RegistrationIn =
    Registration both set_store (part-IsMetaApi of_sets (memory-IsMetaApi sets λ m g. refl))
      (part-IsQuiet of_sets (memory-IsQuiet sets)) refl (λ g. refl) secret_store
      (part-IsMetaApi of_secrets (memory-IsMetaApi secret_meta λ m s. refl))
      (part-IsQuiet of_secrets (memory-IsQuiet secret_meta)) no_secret refl (λ s. refl)
      (λ w s n. refl) host serving

abbrev AllHoldIn : List RegistrationIn → World → Type 0
AllHoldIn =
    AllHold both set_store (part-IsMetaApi of_sets (memory-IsMetaApi sets λ m g. refl))
      (part-IsQuiet of_sets (memory-IsQuiet sets)) refl (λ g. refl) secret_store
      (part-IsMetaApi of_secrets (memory-IsMetaApi secret_meta λ m s. refl))
      (part-IsQuiet of_secrets (memory-IsQuiet secret_meta)) no_secret refl (λ s. refl)
      (λ w s n. refl) host serving

abbrev handlers_of : List RegistrationIn → Dict.Dict (UpdateHandler World)
handlers_of =
    registered_handlers both set_store (part-IsMetaApi of_sets (memory-IsMetaApi sets λ m g. refl))
      (part-IsQuiet of_sets (memory-IsQuiet sets)) refl (λ g. refl) secret_store
      (part-IsMetaApi of_secrets (memory-IsMetaApi secret_meta λ m s. refl))
      (part-IsQuiet of_secrets (memory-IsQuiet secret_meta)) no_secret refl (λ s. refl)
      (λ w s n. refl) host serving

abbrev checked_by : List RegistrationIn → NamespacedName → Option Secret → Option Secret
checked_by =
    checked_in both set_store (part-IsMetaApi of_sets (memory-IsMetaApi sets λ m g. refl))
      (part-IsQuiet of_sets (memory-IsQuiet sets)) refl (λ g. refl) secret_store
      (part-IsMetaApi of_secrets (memory-IsMetaApi secret_meta λ m s. refl))
      (part-IsQuiet of_secrets (memory-IsQuiet secret_meta)) no_secret refl (λ s. refl)
      (λ w s n. refl) host serving

abbrev pilots_served : ServesIn pilots_state
pilots_served = record {
  config = config;
  value = served_secret;
  version = cut_version;
  named = named;
  placed = placed;
  served = λ w. refl;
  cut = version_cut;
  token = [];
  decoded = refl;
  glidein_set = known_set;
  known = refl;
  secret = token_secret;
  content = (empty_map_key, []) ∷ [];
  filled = refl;
}

abbrev others_served : ServesIn other_state
others_served = record {
  config = config;
  value = served_secret;
  version = cut_version;
  named = named;
  placed = placed;
  served = λ w. refl;
  cut = version_cut;
  token = [];
  decoded = refl;
  glidein_set = other_set;
  known = refl;
  secret = other_secret;
  content = ("tk", []) ∷ [];
  filled = refl;
}

abbrev regs : List RegistrationIn
regs =
    ("osg/pilots-old", pilots_state, pilots_served)
    ∷ ("osg/others", other_state, others_served)
    ∷ []

all_hold : AllHoldIn regs two_sets
unfolding name_for
all_hold = (((refl, refl), refl, ((refl, refl), refl, tt)))

check_for_secret_updates_example :
    ((check_for_secret_updates serving (handlers_of regs) two_sets).0 ≡ ok tt)
    × ((n : NamespacedName)
        → secret_store.find (check_for_secret_updates serving (handlers_of regs) two_sets).1 n
          ≡ checked_by regs n (secret_store.find two_sets n))
    × ((n : NamespacedName)
        → set_store.find (check_for_secret_updates serving (handlers_of regs) two_sets).1 n
          ≡ set_store.find two_sets n)
check_for_secret_updates_example =
    check_for_secret_updates_lem both set_store
      (part-IsMetaApi of_sets (memory-IsMetaApi sets λ m g. refl))
      (part-IsQuiet of_sets (memory-IsQuiet sets)) refl (λ g. refl) secret_store
      (part-IsMetaApi of_secrets (memory-IsMetaApi secret_meta λ m s. refl))
      (part-IsQuiet of_secrets (memory-IsQuiet secret_meta)) no_secret refl (λ s. refl)
      (λ w s n. refl) host serving regs two_sets all_hold
