-- ===== src/GlideinSets/Whole.antt =====
-- A whole reconciliation of a GlideinSet, in a quiet cluster that holds its token secrets.
use gmos_k8s_operator.Prelude.{
  String, ◌≡◌, ap, ◌∙◌, true, none, some, ◌&&◌, not, List, [], ◌∷◌, ◌==◌,
}
use gmos_k8s_operator.Dict
use gmos_k8s_operator.Types.{K8s, NamespacedName, Secret, GlideinSet}
use gmos_k8s_operator.Exec.{Result, ok, Cell, bind-ok, with_new}
use gmos_k8s_operator.ResourceName.{
  ResourceName, rn_tokens, rn_collector_tokens, name_for, namespaced_name_for,
}
use gmos_k8s_operator.Kube.{HasMeta, Kube, glidein_set_meta, secret_meta}
use gmos_k8s_operator.Kube.Quiet.{Store, IsMetaApi, IsQuiet}
use gmos_k8s_operator.ApiUtil.{child_key, create_resource_if_not_exists}
use gmos_k8s_operator.Kube.Kinds.{Every, IsQuiet-IsQuietFor, IsQuietKinds}
use gmos_k8s_operator.ApiUtil.Upsert.{resolved_name-new, create-some}
use gmos_k8s_operator.Schemas.{empty_secret_creator}
use gmos_k8s_operator.Host.{Host}
use gmos_k8s_operator.Manifest.{make_data_secret_template}
use gmos_k8s_operator.Template.{DataSecretTemplate, deployment, data_secret, Engine}
use gmos_k8s_operator.Template.Upserts.{Rendered, made_of}
use gmos_k8s_operator.Reconcile.{pilot_set_finalizer}
use gmos_k8s_operator.Reconcile.Finalizer.{listed, IsFinalizerApi, reconcile-listed}
use gmos_k8s_operator.Watchers.Registered.{IsKeyed, registered}
use gmos_k8s_operator.CollectorClient.Clients.{added_client}
use gmos_k8s_operator.Handlers.{collector_update_handler}
use gmos_k8s_operator.GlideinSets.{
  Operator, operator_api, create_resources_for_glidein_set, update_resources_for_glidein_set,
  finalize_glidein_set, work_on_glidein_set, reconcile_glidein_set,
}
use gmos_k8s_operator.GlideinSets.Deletion.{operator_store, operator-IsMetaApi, operator-IsQuiet}
use gmos_k8s_operator.GlideinSets.Registration.{work_on_glidein_set-registered}
use gmos_k8s_operator.GlideinSets.Resources.{RendersFor, update_resources_for_glidein_set-upserts}

module _ {k : K8s} (kube : Kube k) (host : Host) (new_secret : Secret)
    (engine : Engine k kube.Object) (deployment_yaml data_secret_yaml : String) where
  module _ (secrets : Store kube.Cluster Secret)
      (secret-IsMetaApi : IsMetaApi secret_meta kube.secrets)
      (secret-IsQuiet : IsQuiet secret_meta kube.is_not_found kube.secrets secrets)
      (blank_secret : new_secret.meta.name ≡ "") (g : GlideinSet k) (w : kube.Cluster) where
    -- A token secret of the GlideinSet is there.
    abbrev pub HasSecret : ResourceName → Type 0
    HasSecret rn =
        (s : Secret) × (secrets.find w
            (child_key (record { resource = g.meta }) (name_for rn g.meta))
          ≡ some s)

    created_before :
        (rn : ResourceName)
        → HasSecret rn
        → with_new new_secret
            (create_resource_if_not_exists kube.secrets kube.is_not_found
              (record { resource = g.meta })
              rn
              empty_secret_creator)
            w
          ≡ (ok tt, w)
    unfolding with_new
    created_before rn (s, found) =
        ap (λ (p : Result (Unit {0}) × Cell Secret kube.Cluster). (p.0, p.1.world))
          (create-some secret_meta kube.is_not_found kube.secrets secrets secret-IsMetaApi Every
            (IsQuiet-IsQuietFor secret-IsQuiet) (record { resource = g.meta }) rn
            (name_for rn g.meta) empty_secret_creator new_secret w s
            (resolved_name-new secret_meta kube.is_not_found kube.secrets secrets secret-IsMetaApi
              secret-IsQuiet (record { resource = g.meta }) rn new_secret blank_secret)
            found tt)

    pub create_resources_for_glidein_set-exist :
        HasSecret rn_collector_tokens
        → HasSecret rn_tokens
        → create_resources_for_glidein_set kube host new_secret engine deployment_yaml
            data_secret_yaml g w
          ≡ (ok tt, w)
    unfolding create_resources_for_glidein_set
    create_resources_for_glidein_set-exist collector tokens =
        bind-ok
          (with_new new_secret (
            create_resource_if_not_exists kube.secrets kube.is_not_found
              (record { resource = g.meta }) rn_collector_tokens empty_secret_creator))
          _ (created_before rn_collector_tokens collector)
        ∙ created_before rn_tokens tokens

  module _ (client_name : String) (order : List String) (sets : Store kube.Cluster (GlideinSet k))
      (set-IsMetaApi : IsMetaApi (glidein_set_meta k) kube.glidein_sets)
      (set-IsQuiet : IsQuiet (glidein_set_meta k) kube.is_not_found kube.glidein_sets sets)
      (stored-set : (g : GlideinSet k) → sets.stored g ≡ g) (F : IsFinalizerApi kube.finalizers)
      (secrets : Store kube.Cluster Secret) (secret-IsMetaApi : IsMetaApi secret_meta kube.secrets)
      (secret-IsQuiet : IsQuiet secret_meta kube.is_not_found kube.secrets secrets)
      (blank_secret : new_secret.meta.name ≡ "") (hm : HasMeta kube.Object)
      (kind_of : kube.Object → String) (objects : String → Store kube.Cluster kube.Object)
      (object-IsMetaApi : IsMetaApi hm kube.objects)
      (object-IsQuiet : IsQuietKinds hm kube.is_not_found kube.objects kind_of objects) where
    abbrev pub run :
        NamespacedName → Operator kube.Cluster → Result (Unit {0}) × Operator kube.Cluster
    run =
        reconcile_glidein_set kube host new_secret engine deployment_yaml data_secret_yaml
          (some client_name) order

    -- The cluster with the GlideinSet's resources.
    updated : GlideinSet k → Operator kube.Cluster → kube.Cluster
    updated g o =
        (update_resources_for_glidein_set kube host new_secret engine deployment_yaml
          data_secret_yaml g o.cluster).1

    -- In a quiet cluster, which stores GlideinSets as it is sent them; where the map of pollers is
    -- keyed by URL and the client's name is set; and where a new secret has no name, both token
    -- secrets are there, the files of the data secret can be read, and both templates can be
    -- rendered and decoded: to reconcile a live GlideinSet that has the finalizer ends without an
    -- error. The deployment, and after it the data secret, is then what its template made of the
    -- object that was under its kind and key, or of none, as the server stores it, and every other object is
    -- as it was. The GlideinSet is registered with its manager's poller, and has a collector client
    -- with its metadata and a handler for it; no other registration changed.
    pub reconcile_glidein_set-live :
        (req : NamespacedName) (o : Operator kube.Cluster) (g : GlideinSet k)
        (content : DataSecretTemplate) (runs files : Rendered kube.Object)
        → sets.find o.cluster req ≡ some g
        → g.meta.deletion_timestamp ≡ none
        → listed pilot_set_finalizer g.meta.finalizers ≡ true
        → HasSecret secrets secret-IsMetaApi secret-IsQuiet blank_secret g o.cluster
            rn_collector_tokens
        → HasSecret secrets secret-IsMetaApi secret-IsQuiet blank_secret g o.cluster rn_tokens
        → make_data_secret_template host g ≡ ok content
        → RendersFor kube host new_secret engine deployment_yaml data_secret_yaml hm kind_of objects
            object-IsMetaApi object-IsQuiet g
            (deployment g)
            deployment_yaml
            runs
        → RendersFor kube host new_secret engine deployment_yaml data_secret_yaml hm kind_of objects
            object-IsMetaApi object-IsQuiet g
            (data_secret content)
            data_secret_yaml
            files
        → IsKeyed o.watchers
        → ((run req o).0 ≡ ok tt)
          × ((kind : String) (n : NamespacedName)
              → (objects kind).find (run req o).1.cluster n
                ≡ made_of engine hm kube.objects kube.is_not_found kind_of objects object-IsMetaApi
                    object-IsQuiet
                    (record { resource = g.meta })
                    (runs ∷ files ∷ [])
                    kind
                    n
                    ((objects kind).find o.cluster n))
          × (registered
                (run req o).1.watchers
                g.spec.glidein_manager_url
                (namespaced_name_for g.meta)
              ≡ true)
          × (Dict.lookup (namespaced_name_for g.meta) (run req o).1.collector_clients.active
              ≡ some (
                  added_client g.meta
                    (collector_update_handler kube host new_secret (record { resource = g.meta }))
                    (Dict.lookup (namespaced_name_for g.meta) o.collector_clients.active)))
          × ((url r : String)
              → (not (namespaced_name_for g.meta == r) && registered (run req o).1.watchers url r)
                ≡ (not (namespaced_name_for g.meta == r) && registered o.watchers url r))
    unfolding reconcile_glidein_set updated
    reconcile_glidein_set-live req o g content runs files found alive has collector tokens
          listed_data runs_h files_h K =
        let created =
          create_resources_for_glidein_set-exist secrets secret-IsMetaApi secret-IsQuiet
            blank_secret g o.cluster collector tokens in
        let (done, made) =
          update_resources_for_glidein_set-upserts kube host new_secret engine deployment_yaml
            data_secret_yaml hm kind_of objects object-IsMetaApi object-IsQuiet g content runs files
            o.cluster listed_data runs_h files_h in
        let (ended, cluster, registers, client, others) =
          work_on_glidein_set-registered kube host new_secret engine deployment_yaml
            data_secret_yaml client_name order g o o.cluster (updated g o) K created
            (ap (λ r. (r, updated g o)) done) in
        let ran =
          reconcile-listed (glidein_set_meta k) kube.is_not_found (operator_api kube.glidein_sets)
            (operator_store (glidein_set_meta k) kube.glidein_sets sets)
            (operator-IsQuiet (glidein_set_meta k) kube.glidein_sets sets set-IsQuiet)
            (operator-IsMetaApi (glidein_set_meta k) kube.glidein_sets sets set-IsMetaApi)
            stored-set kube.finalizers F kube.new_glidein_set req
            (finalize_glidein_set kube host new_secret engine deployment_yaml data_secret_yaml
              (some client_name) order)
            (work_on_glidein_set kube host new_secret engine deployment_yaml data_secret_yaml
              (some client_name) order)
            o g found alive has in
        (
          ap (λ (r : Result (Unit {0}) × Operator kube.Cluster). r.0) ran ∙ ended,
          λ kind n. rw ran (rw cluster (made kind n)),
          rw ran registers,
          rw ran client,
          λ url r. rw ran (others url r),
        )
