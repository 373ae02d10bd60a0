-- ===== src/GlideinSets/Resources.antt =====
-- updateResourcesForGlideinSet in a quiet cluster: the deployment and the data secret.
use gmos_k8s_operator.Prelude.{String, ◌≡◌, [], ◌∷◌, ◌∙◌, ap}
use gmos_k8s_operator.Exec.{Result, ok, lift, bind-ok, ◌>>=◌}
use gmos_k8s_operator.Types.{K8s, NamespacedName, Secret, GlideinSet}
use gmos_k8s_operator.Host.{Host}
use gmos_k8s_operator.ApiUtil.{PilotSetReconcileState}
use gmos_k8s_operator.Kube.{HasMeta, Kube}
use gmos_k8s_operator.Kube.Quiet.{Store, IsMetaApi}
use gmos_k8s_operator.Kube.Kinds.{IsQuietKinds}
use gmos_k8s_operator.Manifest.{make_data_secret_template}
use gmos_k8s_operator.Template.{
  TemplateData, DataSecretTemplate, deployment, data_secret, Engine, apply_from_template,
}
use gmos_k8s_operator.Template.Upserts.{
  left, Rendered, Renders, made_of, apply_from_template_lem, find-left,
}
use gmos_k8s_operator.GlideinSets.{update_resources_for_glidein_set}

module _ {k : K8s} (kube : Kube k) (host : Host) (new_secret : Secret)
    (engine : Engine k kube.Object) (deployment_yaml data_secret_yaml : String)
    (hm : HasMeta kube.Object) (kind_of : kube.Object → String)
    (stores : String → Store kube.Cluster kube.Object) (M : IsMetaApi hm kube.objects)
    (Q : IsQuietKinds hm kube.is_not_found kube.objects kind_of stores) (g : GlideinSet k) where
  abbrev pub owner : PilotSetReconcileState
  owner = record { resource = g.meta }

  abbrev pub RendersFor : TemplateData k → String → Rendered kube.Object → Type 0
  RendersFor = Renders engine hm kube.objects kube.is_not_found kind_of stores M Q owner

  module _ (content : DataSecretTemplate) (runs files : Rendered kube.Object) (w : kube.Cluster)
      (listed : make_data_secret_template host g ≡ ok content)
      (h : RendersFor (deployment g) deployment_yaml runs)
      (h' : RendersFor (data_secret content) data_secret_yaml files) where
    with_deployment : kube.Cluster
    with_deployment = (stores runs.kind).put w (
        left engine hm kube.objects kube.is_not_found kind_of stores M Q owner (deployment g)
          deployment_yaml runs h w)

    with_files : kube.Cluster
    with_files = (stores files.kind).put with_deployment (
        left engine hm kube.objects kube.is_not_found kind_of stores M Q owner (data_secret content)
          data_secret_yaml files h' with_deployment)

    update_lem :
        update_resources_for_glidein_set kube host new_secret engine deployment_yaml
          data_secret_yaml g w
        ≡ (ok tt, with_files)
    unfolding update_resources_for_glidein_set lift with_deployment with_files
    update_lem =
        bind-ok
          (apply_from_template engine kube.objects kube.is_not_found owner (deployment g)
            deployment_yaml)
          _
          (apply_from_template_lem engine hm kube.objects kube.is_not_found kind_of stores M Q owner
            (deployment g) deployment_yaml runs h w)
        ∙ bind-ok (λ v. (make_data_secret_template host g, v)) _ (rw listed)
        ∙ apply_from_template_lem engine hm kube.objects kube.is_not_found kind_of stores M Q owner
            (data_secret content) data_secret_yaml files h' with_deployment

    find-with_files :
        (kind : String) (n : NamespacedName)
        → (stores kind).find with_files n
          ≡ made_of engine hm kube.objects kube.is_not_found kind_of stores M Q owner
              (runs ∷ files ∷ [])
              kind
              n
              ((stores kind).find w n)
    unfolding with_deployment with_files
    find-with_files kind n =
        find-left engine hm kube.objects kube.is_not_found kind_of stores M Q owner
          (data_secret content) data_secret_yaml files h' with_deployment kind n
        ∙ ap
            (made_of engine hm kube.objects kube.is_not_found kind_of stores M Q owner (files ∷ [])
              kind n)
            (find-left engine hm kube.objects kube.is_not_found kind_of stores M Q owner
              (deployment g) deployment_yaml runs h w kind n)

  -- In a quiet cluster, where the files of the data secret can be read and both templates can be
  -- rendered and decoded: to update a GlideinSet's resources ends without an error. The deployment,
  -- and after it the data secret, is then what its template made of the object that was under its
  -- kind and key, or of none, as the server stores it; every other object is as it was.
  pub update_resources_for_glidein_set-upserts :
      (content : DataSecretTemplate) (runs files : Rendered kube.Object) (w : kube.Cluster)
      → make_data_secret_template host g ≡ ok content
      → RendersFor (deployment g) deployment_yaml runs
      → RendersFor (data_secret content) data_secret_yaml files
      → ((update_resources_for_glidein_set kube host new_secret engine deployment_yaml
            data_secret_yaml g w).0
          ≡ ok tt)
        × ((kind : String) (n : NamespacedName)
            → (stores kind).find
                (update_resources_for_glidein_set kube host new_secret engine deployment_yaml
                  data_secret_yaml g w).1
                n
              ≡ made_of engine hm kube.objects kube.is_not_found kind_of stores M Q owner
                  (runs ∷ files ∷ [])
                  kind
                  n
                  ((stores kind).find w n))
  unfolding update_resources_for_glidein_set lift ◌>>=◌
  update_resources_for_glidein_set-upserts content runs files w listed h h' =
      let e = update_lem content runs files w listed h h' in
      (
        ap (λ (p : Result (Unit {0}) × kube.Cluster). p.0) e,
        λ kind n. rw e (find-with_files content runs files w listed h h' kind n),
      )
