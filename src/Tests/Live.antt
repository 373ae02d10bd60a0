-- ===== src/Tests/Live.antt =====
-- A live GlideinSet with its finalizer and its token secrets, which is not registered yet.
use gmos_k8s_operator.Prelude.{
  String, ◌≡◌, refl, none, some, Option, [], ◌∷◌, true, ◌&&◌, not, ◌==◌,
}
use gmos_k8s_operator.Dict
use gmos_k8s_operator.Exec.{Result, ok}
use gmos_k8s_operator.Types.{Secret, GlideinSet, NamespacedName}
use gmos_k8s_operator.ResourceName.{rn_tokens, rn_collector_tokens, name_for, namespaced_name_for}
use gmos_k8s_operator.Kube.{secret_meta}
use gmos_k8s_operator.Kube.Quiet.{IsMetaApi, IsQuiet}
use gmos_k8s_operator.Reconcile.{pilot_set_finalizer}
use gmos_k8s_operator.Manifest.{make_data_secret_template}
use gmos_k8s_operator.Template.{DataSecretTemplate, deployment, data_secret}
use gmos_k8s_operator.Template.Upserts.{made_of}
use gmos_k8s_operator.Handlers.{collector_update_handler}
use gmos_k8s_operator.Watchers.Registered.{IsKeyed, registered}
use gmos_k8s_operator.Watchers.Guarantees.{no_watchers}
use gmos_k8s_operator.CollectorClient.Clients.{added_client}
use gmos_k8s_operator.CollectorClient.Running.{no_clients}
use gmos_k8s_operator.GlideinSets.{Operator, add_watchers, reconcile_glidein_set}
use gmos_k8s_operator.GlideinSets.Registration.{add_watchers_again}
use gmos_k8s_operator.GlideinSets.Whole.{HasSecret, reconcile_glidein_set-live}
use gmos_k8s_operator.Tests.Memory.{memory_store, memory-IsMetaApi, memory-IsQuiet}
use gmos_k8s_operator.Tests.Cluster.{
  plain, osg, old_key, old_set, sets, finalizer_api-IsFinalizerApi,
}
use gmos_k8s_operator.Tests.Controllers.{host, no_secret}
use gmos_k8s_operator.Tests.Objects.{object_meta, kind_of}
use gmos_k8s_operator.Tests.Part.{part-IsMetaApi, part-IsQuiet}
use gmos_k8s_operator.Tests.Templates.{filling, rendered, rendered-RendersIn}
use gmos_k8s_operator.Tests.Reconciled.{
  Whole, of_secrets, of_objects, whole, set_store, secret_store, object_stores,
  whole-IsQuietCluster,
}

abbrev live_set : GlideinSet plain
live_set = record old_set {
  meta = record (osg "pilots-old") { finalizers = pilot_set_finalizer ∷ [] };
}

abbrev deployment_yaml : String
deployment_yaml = "glideinset-deployment.yaml"

abbrev data_secret_yaml : String
data_secret_yaml = "glideinset-data-secret.yaml"

abbrev secrets-IsMetaApi : IsMetaApi secret_meta whole.secrets
secrets-IsMetaApi = part-IsMetaApi of_secrets (memory-IsMetaApi secret_meta λ m s. refl)

abbrev secrets-IsQuiet : IsQuiet secret_meta whole.is_not_found whole.secrets secret_store
secrets-IsQuiet = part-IsQuiet of_secrets (memory-IsQuiet secret_meta)

abbrev secret : String → Secret
secret name = record no_secret { meta = osg name }

abbrev with_tokens : NamespacedName → Option Secret
with_tokens =
    (memory_store secret_meta).put
      ((memory_store secret_meta).put (λ n. none) (secret "pilots-old-tokens"))
      (secret "pilots-old-collector-tokens")

abbrev unregistered : Operator Whole
unregistered = record {
  cluster = (λ n. none, (memory_store sets).put (λ n. none) live_set, with_tokens, λ kind n. none);
  watchers = no_watchers;
  collector_clients = no_clients;
}

abbrev content : DataSecretTemplate
content = record { name = "pilots-old"; namespace = "osg"; content = none }

content_made : make_data_secret_template host live_set ≡ ok content
unfolding make_data_secret_template
content_made = refl

collector_tokens_there :
    HasSecret whole host no_secret filling deployment_yaml data_secret_yaml secret_store
      secrets-IsMetaApi secrets-IsQuiet refl live_set unregistered.cluster rn_collector_tokens
unfolding name_for
collector_tokens_there = (secret "pilots-old-collector-tokens", refl)

tokens_there :
    HasSecret whole host no_secret filling deployment_yaml data_secret_yaml secret_store
      secrets-IsMetaApi secrets-IsQuiet refl live_set unregistered.cluster rn_tokens
unfolding name_for
tokens_there = (secret "pilots-old-tokens", refl)

unregistered-IsKeyed : IsKeyed unregistered.watchers
unfolding Dict.lookup
unregistered-IsKeyed = record { url_lem = λ url p h. cc; used = λ url p h. cc }

abbrev run : Result (Unit {0}) × Operator Whole
run =
    reconcile_glidein_set whole host no_secret filling deployment_yaml data_secret_yaml (some "k8s")
      [] old_key unregistered

reconcile_glidein_set-live_example :
    (run.0 ≡ ok tt)
    × ((kind : String) (n : NamespacedName)
        → (object_stores kind).find run.1.cluster n
          ≡ made_of filling object_meta whole.objects whole.is_not_found kind_of object_stores
              whole-IsQuietCluster.objects-IsMetaApi whole-IsQuietCluster.objects-IsQuiet
              (record { resource = live_set.meta })
              (rendered deployment_yaml ∷ rendered data_secret_yaml ∷ [])
              kind
              n
              ((object_stores kind).find unregistered.cluster n))
    × (registered run.1.watchers "" (namespaced_name_for live_set.meta) ≡ true)
    × (Dict.lookup (namespaced_name_for live_set.meta) run.1.collector_clients.active
        ≡ some (
            added_client live_set.meta
              (collector_update_handler whole host no_secret (record { resource = live_set.meta }))
              (Dict.lookup (namespaced_name_for live_set.meta) no_clients.active)))
    × ((url r : String)
        → (not (namespaced_name_for live_set.meta == r) && registered run.1.watchers url r) ≡ (
            not (namespaced_name_for live_set.meta == r) && registered unregistered.watchers url r))
reconcile_glidein_set-live_example =
    reconcile_glidein_set-live whole host no_secret filling deployment_yaml data_secret_yaml "k8s"
      [] set_store whole-IsQuietCluster.sets-IsMetaApi whole-IsQuietCluster.sets-IsQuiet (λ g. refl)
      finalizer_api-IsFinalizerApi secret_store secrets-IsMetaApi secrets-IsQuiet refl object_meta
      kind_of object_stores whole-IsQuietCluster.objects-IsMetaApi
      whole-IsQuietCluster.objects-IsQuiet old_key unregistered live_set content
      (rendered deployment_yaml) (rendered data_secret_yaml) refl refl refl collector_tokens_there
      tokens_there content_made
      (rendered-RendersIn of_objects (pilot_set_finalizer ∷ []) (deployment live_set)
        deployment_yaml refl)
      (rendered-RendersIn of_objects (pilot_set_finalizer ∷ []) (data_secret content)
        data_secret_yaml refl)
      unregistered-IsKeyed

add_watchers_again_example :
    add_watchers whole host no_secret filling deployment_yaml data_secret_yaml
      (some "renamed")
      ("b" ∷ [])
      live_set
      (add_watchers whole host no_secret filling deployment_yaml data_secret_yaml
        (some "k8s")
        []
        live_set
        unregistered).1
    ≡ add_watchers whole host no_secret filling deployment_yaml data_secret_yaml
        (some "k8s")
        []
        live_set
        unregistered
add_watchers_again_example =
    add_watchers_again whole host no_secret filling deployment_yaml data_secret_yaml "k8s" []
      live_set "renamed" ("b" ∷ []) unregistered unregistered-IsKeyed
