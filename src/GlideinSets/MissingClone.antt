-- ===== src/GlideinSets/MissingClone.antt =====
-- A GlideinSet whose manifest is known and whose clone cannot be read, as after a restart of the
-- operator.
use gmos_k8s_operator.Prelude.{String, ◌≡◌, ◌≢◌, refl, ap, Option, some, List, [], ◌∷◌, arith}
use gmos_k8s_operator.Exec.{
  Error, Result, ok, err, Exec, and_then, lift, ended, returned, failed, crashed, bind-ok, bind-err,
  bind-panic, ◌>>=◌,
}
use gmos_k8s_operator.Types.{K8s, Secret, GlideinSet, PilotSetNamespaceConfig}
use gmos_k8s_operator.Kube.{Kube}
use gmos_k8s_operator.Host.{Host}
use gmos_k8s_operator.Template.{
  DataSecretTemplate, deployment, data_secret, Engine, apply_from_template,
}
use gmos_k8s_operator.Manifest.{read_data, make_data_secret_template}
use gmos_k8s_operator.GlideinSets.{
  Operator, on_cluster, create_resources_for_glidein_set, update_resources_for_glidein_set,
  add_watchers, work_on_glidein_set,
}

-- An action that does not return.
Fails : {S A : Type 0} → Exec S A → S → Type 0
Fails m s = (a : _) → (m s).0 ≢ ok a

module _ {S A B : Type 0} where
  Fails-first : (m : Exec S A) (f : A → Exec S B) (s : S) → Fails m s → Fails (m >>= f) s
  unfolding Fails
  Fails-first m f s h b = elim (ended (m s)) [
    | returned a s' p ↦ absurd (h a (ap (λ (r : Result A × S). r.0) p))
    | failed e s' p ↦ rw (bind-err m f p) (λ q. cc)
    | crashed s' p ↦ rw (bind-panic m f p) (λ q. cc)
  ]

  Fails-second :
      (m : Exec S A) (f : A → Exec S B) (s : S)
      → ((a : A) (s' : S) → Fails (f a) s')
      → Fails (m >>= f) s
  unfolding Fails
  Fails-second m f s h b = elim (ended (m s)) [
    | returned a s' p ↦ rw (bind-ok m f p) (h a s' b)
    | failed e s' p ↦ rw (bind-err m f p) (λ q. cc)
    | crashed s' p ↦ rw (bind-panic m f p) (λ q. cc)
  ]

-- An end without a return, which leaves the watchers and the clients as they were.
record Blocked {W : Type 0} (o : Operator W) (p : Result (Unit {0}) × Operator W) : Type 0 where
  watchers_lem : p.1.watchers ≡ o.watchers
  clients_lem : p.1.collector_clients ≡ o.collector_clients
  unreturned : (a : _) → p.0 ≢ ok a

module _ {W : Type 0} (m : Exec W (Unit {0})) (f : Unit {0} → Exec (Operator W) (Unit {0}))
    (o : Operator W) where
  on_cluster_lem :
      {r : Result (Unit {0})} {w : W}
      → m o.cluster ≡ (r, w)
      → on_cluster m o ≡ (r, record o { cluster = w })
  unfolding on_cluster
  on_cluster_lem h = rw h

  Blocked-second :
      ((a : _) (w : W) → m o.cluster ≡ (ok a, w) → Blocked o (f a (record o { cluster = w })))
      → Blocked o ((on_cluster m >>= f) o)
  Blocked-second h = elim (ended (m o.cluster)) [
    | returned a w p ↦ rw (bind-ok (on_cluster m) f (on_cluster_lem p)) (h a w p)
    | failed e w p ↦
        rw (bind-err (on_cluster m) f (on_cluster_lem p))
          (record { watchers_lem = refl; clients_lem = refl; unreturned = λ a q. cc })
    | crashed w p ↦
        rw (bind-panic (on_cluster m) f (on_cluster_lem p))
          (record { watchers_lem = refl; clients_lem = refl; unreturned = λ a q. cc })
  ]

Blocked-first :
    {W : Type 0} (m : Exec W (Unit {0})) (f : Unit {0} → Exec (Operator W) (Unit {0}))
    (o : Operator W)
    → Fails m o.cluster
    → Blocked o ((on_cluster m >>= f) o)
unfolding Fails
Blocked-first m f o h =
    Blocked-second m f o λ a w p. absurd (h a (ap (λ (r : Result (Unit {0}) × _). r.0) p))

-- The cluster may change before.
Blocked-earlier :
    {W : Type 0} (o : Operator W) (w : W) {p : Result (Unit {0}) × Operator W}
    → Blocked (record o { cluster = w }) p
    → Blocked o p
Blocked-earlier o w b = record {
  watchers_lem = b.watchers_lem;
  clients_lem = b.clients_lem;
  unreturned = b.unreturned;
}

module _ {k : K8s} (kube : Kube k) (host : Host) (new_secret : Secret)
    (engine : Engine k kube.Object) (deployment_yaml data_secret_yaml : String)
    (glidein_set : GlideinSet k) (manifest : PilotSetNamespaceConfig) (e : Error)
    (known : glidein_set.remote_manifest ≡ some manifest)
    (unread : host.read_dir (host.join_path (manifest.repo_path ∷ manifest.volume.src ∷ []))
      ≡ err e) where
  template-err : make_data_secret_template host glidein_set ≡ err e
  unfolding make_data_secret_template read_data and_then
  template-err = rw (make_data_secret_template, known, read_data, unread) (ground arith)

  abbrev write_data : DataSecretTemplate → Exec kube.Cluster (Unit {0})
  write_data content =
      apply_from_template engine kube.objects kube.is_not_found
        (record { resource = glidein_set.meta }) (data_secret content) data_secret_yaml

  lift-Fails :
      (w : kube.Cluster)
      → Fails (lift {S = kube.Cluster} (make_data_secret_template host glidein_set)) w
  unfolding Fails lift
  lift-Fails w a = rw template-err (λ q. cc)

  update-Fails :
      (w : kube.Cluster)
      → Fails
          (update_resources_for_glidein_set kube host new_secret engine deployment_yaml
            data_secret_yaml glidein_set)
          w
  unfolding update_resources_for_glidein_set
  update-Fails w =
      let step = make_data_secret_template host glidein_set in
      Fails-second
        (apply_from_template engine kube.objects kube.is_not_found
          (record { resource = glidein_set.meta }) (deployment glidein_set) deployment_yaml)
        (λ _. lift step >>= write_data) w
        λ _ w'. Fails-first (lift step) write_data w' (lift-Fails w')

  -- Reconciling a GlideinSet whose manifest is known, and whose directory of data cannot be read,
  -- ends in an error or a panic, whatever the cluster answers, and leaves the watchers and the
  -- collector clients as they were.
  pub work-missing_clone :
      (env : Option String) (order : List String) (o : Operator kube.Cluster)
      → ((work_on_glidein_set kube host new_secret engine deployment_yaml data_secret_yaml env order
            glidein_set o).1.watchers
          ≡ o.watchers)
        × ((work_on_glidein_set kube host new_secret engine deployment_yaml data_secret_yaml env
              order glidein_set o).1.collector_clients
            ≡ o.collector_clients)
        × ((work_on_glidein_set kube host new_secret engine deployment_yaml data_secret_yaml env
              order glidein_set o).0
            ≢ ok tt)
  unfolding work_on_glidein_set
  work-missing_clone env order o =
      let b : Blocked o _ =
        Blocked-second
          (create_resources_for_glidein_set kube host new_secret engine deployment_yaml
            data_secret_yaml glidein_set)
          _ o
          λ a w p. Blocked-earlier o w (
            Blocked-first
              (update_resources_for_glidein_set kube host new_secret engine deployment_yaml
                data_secret_yaml glidein_set)
              (λ _.
                add_watchers kube host new_secret engine deployment_yaml data_secret_yaml env order
                  glidein_set)
              (record o { cluster = w }) (update-Fails w)) in
      (b.watchers_lem, b.clients_lem, b.unreturned tt)
