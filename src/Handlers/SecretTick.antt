-- ===== src/Handlers/SecretTick.antt =====
-- checkForSecretUpdates over all handlers of a poller, in a quiet cluster.
use gmos_k8s_operator.Prelude.{
  String, ◌≡◌, ◌≢◌, refl, ap, sym, ◌∙◌, Bool, true, false, ◌||◌, ◌==◌, arith, Option, none, some,
  List, [], ◌∷◌, inl, inr, Bool-cases, if◌then◌else◌,
}
use gmos_k8s_operator.Dict.{Dict}
use gmos_k8s_operator.Types.{
  Bytes, K8s, NamespacedName, Secret, GlideinSet, PilotSetNamespaceConfig,
}
use gmos_k8s_operator.ResourceName.{rn_base, rn_tokens, name_for}
use gmos_k8s_operator.Exec.{Result, ok, for_each, bind-ok, pure}
use gmos_k8s_operator.Host.{Host, SecretValue}
use gmos_k8s_operator.Kube.{Kube, glidein_set_meta, secret_meta}
use gmos_k8s_operator.Kube.Quiet.{
  Store, IsMetaApi, IsQuiet, key_of, same_key, same_key_iff, same_key_comm,
}
use gmos_k8s_operator.ApiUtil.{PilotSetReconcileState, child_key}
use gmos_k8s_operator.Poller.Checks.{
  ManagerClient, UpdateHandler, prefix, max_label_length, check_handler_for_secret_update,
  check_for_secret_updates,
}
use gmos_k8s_operator.Handlers.{secret_version, update_handler}
use gmos_k8s_operator.Handlers.TokenSecret.{with_content}
use gmos_k8s_operator.Handlers.SecretSync.{check_handler_for_secret_update_lem}

or_false : (a b : Bool) → (a || b) ≡ false → a ≡ false
or_false false b h = refl
or_false true b h = h

module _ {k : K8s} (kube : Kube k) (store : Store kube.Cluster (GlideinSet k))
    (M : IsMetaApi (glidein_set_meta k) kube.glidein_sets)
    (Q : IsQuiet (glidein_set_meta k) kube.is_not_found kube.glidein_sets store)
    (blank_name : kube.new_glidein_set.meta.name ≡ "")
    (stored_lem : (g : GlideinSet k) → store.stored g ≡ g) (secrets : Store kube.Cluster Secret)
    (secret-IsMetaApi : IsMetaApi secret_meta kube.secrets)
    (secret-IsQuiet : IsQuiet secret_meta kube.is_not_found kube.secrets secrets)
    (new_secret : Secret) (blank_secret : new_secret.meta.name ≡ "")
    (stored-secret : (s : Secret) → secrets.stored s ≡ s)
    (apart : (w : kube.Cluster) (s : Secret) (n : NamespacedName)
      → store.find (secrets.put w s) n ≡ store.find w n)
    (host : Host) (client : ManagerClient kube.Cluster) where
  -- The keys of a handler's GlideinSet and of its token secret.
  abbrev pub set_key : PilotSetReconcileState → NamespacedName
  set_key pr = child_key pr (name_for rn_base pr.resource)

  abbrev pub token_key : PilotSetReconcileState → NamespacedName
  token_key pr = child_key pr (name_for rn_tokens pr.resource)

  -- A handler's GlideinSet with a manifest that names a secret, what the manager serves of it, and
  -- the token secret with data.
  pub record Serves (pr : PilotSetReconcileState) : Type 0 where
    pub config : PilotSetNamespaceConfig
    pub value : SecretValue
    pub version : String
    pub named : config.secret_source.secret_name ≢ ""
    pub placed : config.secret_source.dst ≢ ""
    pub served :
        (w : kube.Cluster) → client.get_secret config.secret_source.secret_name w ≡ (ok value, w)
    pub cut : prefix value.version max_label_length ≡ ok version
    pub token : Bytes
    pub decoded : host.decode_base64 value.value ≡ ok token
    pub glidein_set : GlideinSet k
    pub known : glidein_set.remote_manifest ≡ some config
    pub secret : Secret
    pub content : Dict Bytes
    pub filled : secret.content ≡ some content

  module _ {pr : PilotSetReconcileState} (p : Serves pr) where
    -- The GlideinSet and the secret are in the cluster.
    abbrev pub Holds : kube.Cluster → Type 0
    Holds w =
        (store.find w (set_key pr) ≡ some p.glidein_set)
        × (secrets.find w (token_key pr) ≡ some p.secret)

    -- The token secret with the token that was served, and with its version.
    abbrev pub served_secret : Secret
    served_secret =
        with_content host p.config.secret_source (record p.value { version = p.version }) p.secret
          p.token p.decoded p.placed p.content

    -- The token secret after the check.
    abbrev pub checked_secret : Secret
    checked_secret = if p.version == secret_version p.secret then p.secret else served_secret

    abbrev step : kube.Cluster → kube.Cluster
    step w = if p.version == secret_version p.secret then w else secrets.put w served_secret

    step_lem :
        (resource : String) (w : kube.Cluster)
        → Holds w
        → check_handler_for_secret_update client
            (resource, update_handler kube host new_secret pr)
            w
          ≡ (ok tt, step w)
    step_lem resource w (found, held) =
        (check_handler_for_secret_update_lem kube store M Q blank_name stored_lem secrets
          secret-IsMetaApi secret-IsQuiet new_secret blank_secret stored-secret apart host pr client
          p.config p.value p.version p.named p.placed p.served p.cut p.token p.decoded w
          p.glidein_set p.secret p.content found p.known held p.filled resource).0

    find-put_served :
        (w : kube.Cluster) (n : NamespacedName)
        → Holds w
        → secrets.find (secrets.put w served_secret) n
          ≡ (if same_key (token_key pr) n then some served_secret else secrets.find w n)
    find-put_served w n (found, held) =
        secret-IsQuiet.find-put w served_secret n
        ∙ ap
            (λ b.
              if same_key (key_of p.secret.meta) n
              then (if b then none else some served_secret)
              else secrets.find w n)
            (secret-IsQuiet.is_dead-find (token_key pr) w p.secret held)
        ∙ ap (λ m. if same_key m n then some served_secret else secrets.find w n)
            (secret-IsQuiet.key-find (token_key pr) w p.secret held)

    find-step :
        (w : kube.Cluster) (n : NamespacedName)
        → Holds w
        → secrets.find (step w) n
          ≡ (if same_key (token_key pr) n then some checked_secret else secrets.find w n)
    find-step w n (found, held) = elim (Bool-cases (p.version == secret_version p.secret)) [
      | inl same ↦ rw same (elim (Bool-cases (same_key (token_key pr) n)) [
        | inl here ↦
            rw here (ap (secrets.find w) (sym ((same_key_iff (token_key pr) n).0 here)) ∙ held)
        | inr there ↦ rw there refl
      ])
      | inr differs ↦ rw differs (find-put_served w n (found, held))
    ]

    set-step : (w : kube.Cluster) (n : NamespacedName) → store.find (step w) n ≡ store.find w n
    set-step w n = elim (Bool-cases (p.version == secret_version p.secret)) [
      | inl same ↦ rw same refl
      | inr differs ↦ rw differs (apart w served_secret n)
    ]

  -- The poller's handlers: each with the GlideinSet it was registered for, and what is served of it.
  abbrev pub Registration : Type 0
  Registration = String × (pr : PilotSetReconcileState) × Serves pr

  abbrev pub registered_handlers : List Registration → Dict (UpdateHandler kube.Cluster)
  registered_handlers [] = []
  registered_handlers ((resource, pr, p) ∷ regs) =
      (resource, update_handler kube host new_secret pr) ∷ registered_handlers regs

  abbrev pub has_token_key : List Registration → NamespacedName → Bool
  has_token_key [] n = false
  has_token_key ((resource, pr, p) ∷ regs) n = same_key (token_key pr) n || has_token_key regs n

  -- Each GlideinSet and its secret are in the cluster, and no two have the same secret.
  abbrev pub AllHold : List Registration → kube.Cluster → Type 0
  AllHold [] w = Unit
  AllHold ((resource, pr, p) ∷ regs) w =
      Holds p w × (has_token_key regs (token_key pr) ≡ false) × AllHold regs w

  -- The secret under a key after the check of all handlers.
  abbrev pub checked_in : List Registration → NamespacedName → Option Secret → Option Secret
  checked_in [] n o = o
  checked_in ((resource, pr, p) ∷ regs) n o =
      if same_key (token_key pr) n then some (checked_secret p) else checked_in regs n o

  AllHold-step :
      {pr : PilotSetReconcileState} (p : Serves pr) (regs : List Registration) (w : kube.Cluster)
      → Holds p w
      → has_token_key regs (token_key pr) ≡ false
      → AllHold regs w
      → AllHold regs (step p w)
  AllHold-step p [] w h distinct all = tt
  AllHold-step {pr} p ((resource, pr', q) ∷ regs) w h distinct ((found, held), apart', all) = (
    (
      set-step p w (set_key pr') ∙ found,
      find-step p w (token_key pr') h
          ∙ ap (λ b. if b then some (checked_secret p) else secrets.find w (token_key pr'))
              (same_key_comm (token_key pr) (token_key pr')
                ∙ or_false (same_key (token_key pr') (token_key pr)) _ distinct)
          ∙ held,
    ),
    apart',
    AllHold-step p regs w h (ground arith) all,
  )

  checked_in-other :
      (regs : List Registration) (n : NamespacedName) (o : Option Secret)
      → has_token_key regs n ≡ false
      → checked_in regs n o ≡ o
  checked_in-other [] n o h = refl
  checked_in-other ((resource, pr, p) ∷ regs) n o h = ground (arith, checked_in-other regs n o)

  checked_first :
      {pr : PilotSetReconcileState} (p : Serves pr) (regs : List Registration)
      → has_token_key regs (token_key pr) ≡ false
      → (n : NamespacedName) (o : Option Secret)
      → checked_in regs n (if same_key (token_key pr) n then some (checked_secret p) else o)
        ≡ (if same_key (token_key pr) n then some (checked_secret p) else checked_in regs n o)
  checked_first {pr} p regs distinct n o = elim (Bool-cases (same_key (token_key pr) n)) [
    | inl here ↦ rw here (
        checked_in-other regs n (some (checked_secret p))
          (ap (has_token_key regs) (sym ((same_key_iff (token_key pr) n).0 here)) ∙ distinct))
    | inr there ↦ rw there refl
  ]

  handlers_lem :
      (regs : List Registration) (w : kube.Cluster)
      → AllHold regs w
      → (w' : kube.Cluster) × (for_each
            (registered_handlers regs)
            (check_handler_for_secret_update client)
            w
          ≡ (ok tt, w'))
        × ((n : NamespacedName) → secrets.find w' n ≡ checked_in regs n (secrets.find w n))
        × ((n : NamespacedName) → store.find w' n ≡ store.find w n)
  unfolding for_each pure
  handlers_lem [] w all = (w, refl, λ n. refl, λ n. refl)
  handlers_lem ((resource, pr, p) ∷ regs) w (h, distinct, all) =
      let (w', done, left, sets) =
        handlers_lem regs (step p w) (AllHold-step p regs w h distinct all) in
      (
        w',
        bind-ok
              (check_handler_for_secret_update client
                (resource, update_handler kube host new_secret pr))
              _ (step_lem p resource w h)
            ∙ done,
        λ n.
            left n
            ∙ ap (checked_in regs n) (find-step p w n h)
            ∙ checked_first p regs distinct n (secrets.find w n),
        λ n. sets n ∙ set-step p w n,
      )

  -- In a quiet cluster, which stores objects as it is sent them and in which secrets and
  -- GlideinSets are apart: where new resources have no name, each handler's GlideinSet has a
  -- manifest with a secret, which the manager serves with a version that can be cut to 63 bytes and
  -- a value that can be decoded, each has a token secret with data, and no two have the same one,
  -- the check of all handlers ends without an error. Each token secret is then as it was, if it had
  -- the cut version, and else has the token that was served and that version. Every other secret
  -- and every GlideinSet is as it was.
  pub check_for_secret_updates_lem :
      (regs : List Registration) (w : kube.Cluster)
      → AllHold regs w
      → ((check_for_secret_updates client (registered_handlers regs) w).0 ≡ ok tt)
        × ((n : NamespacedName)
            → secrets.find (check_for_secret_updates client (registered_handlers regs) w).1 n
              ≡ checked_in regs n (secrets.find w n))
        × ((n : NamespacedName)
            → store.find (check_for_secret_updates client (registered_handlers regs) w).1 n
              ≡ store.find w n)
  unfolding check_for_secret_updates
  check_for_secret_updates_lem regs w all =
      let (w', done, left, sets) = handlers_lem regs w all in
      (
        ap (λ (r : Result (Unit {0}) × kube.Cluster). r.0) done,
        λ n. rw done (left n),
        λ n. rw done (sets n),
      )
