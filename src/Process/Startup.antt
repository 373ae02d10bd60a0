-- ===== src/Process/Startup.antt =====
-- What `main` does before it starts the manager.
use gmos_k8s_operator.Prelude.{
  String, ◌≡◌, ◌≢◌, refl, sym, ap, ◌∙◌, List, [], ◌∷◌, if◌then◌else◌, Bool-cases, Option, none,
  some, ◌⊎◌, inl, inr,
}
use gmos_k8s_operator.Dict.{Dict}
use gmos_k8s_operator.Exec.{
  Result, ok, err, panic, Exec, gets, lift, ended, returned, failed, crashed, bind-ok, bind-err,
  bind-panic, ◌>>=◌,
}
use gmos_k8s_operator.Process.Namespaces.{get_watch_namespaces}
use gmos_k8s_operator.Process.{
  Flags, TlsConfig, ManagerOptions, disable_http2, tls_opts, default_flags, manager_options,
  glidein_set_collections, glidein_sets, Runtime, collections_setup_with_manager,
  glidein_sets_setup_with_manager, main,
}

module _ {W M : Type 0} (P : M → W → Type 0) where
  -- A body that starts a manager last and once, with `P` before it, or ends without a start.
  abbrev pub StartsLast : ((M → Exec W (Unit {0})) → Exec W (Unit {0})) → W → Type 0
  StartsLast body w =
      ((mgr : M) × (v : W) × P mgr v
        × ((start : M → Exec W (Unit {0})) → body start w ≡ start mgr v))
      ⊎ ((r : Result (Unit {0})) × (v : W) × (r ≢ ok tt)
          × ((start : M → Exec W (Unit {0})) → body start w ≡ (r, v)))

  StartsLast-bind :
      {A : Type 0} (m : Exec W A) (f : A → (M → Exec W (Unit {0})) → Exec W (Unit {0})) (w : W)
      → ((a : A) (v : W) → m w ≡ (ok a, v) → StartsLast (f a) v)
      → StartsLast (λ start. m >>= λ a. f a start) w
  StartsLast-bind m f w h = elim (ended (m w)) [
    | returned a v p ↦ elim (h a v p) [
      | inl (mgr, u, q, starts) ↦
          inl (mgr, u, q, λ start. bind-ok m (λ a. f a start) p ∙ starts start)
      | inr (r, u, q, ends) ↦ inr (r, u, q, λ start. bind-ok m (λ a. f a start) p ∙ ends start)
    ]
    | failed e v p ↦ inr (err e, v, (λ q. cc), λ start. bind-err m (λ a. f a start) p)
    | crashed v p ↦ inr (panic, v, (λ q. cc), λ start. bind-panic m (λ a. f a start) p)
  ]

-- The options that the flags and the namespaces ask for: HTTP/2 is off unless its flag is set.
abbrev pub wanted_options : Flags → Dict (Unit {0}) → ManagerOptions
wanted_options flags namespaces =
    let protos : List (TlsConfig → TlsConfig) =
      if flags.enable_http2 then [] else (λ c. record c { next_protos = "http/1.1" ∷ [] }) ∷ [] in
    record {
      metrics_bind_address = flags.metrics_addr;
      metrics_secure_serving = flags.secure_metrics;
      metrics_tls_opts = protos;
      webhook_tls_opts = protos;
      health_probe_bind_address = flags.probe_addr;
      leader_election = flags.enable_leader_election;
      leader_election_id = "80f0966d.chtc.wisc.edu";
      default_namespaces = namespaces;
    }

manager_options_lem :
    (flags : Flags) (namespaces : Dict (Unit {0}))
    → manager_options flags namespaces ≡ wanted_options flags namespaces
unfolding manager_options tls_opts disable_http2
manager_options_lem flags namespaces = elim (Bool-cases flags.enable_http2) [
  | inl on ↦ rw on refl
  | inr off ↦ rw off refl
]

module _ {W : Type 0} (rt : Runtime W) where
  -- The manager was made of the flags and of WATCH_NAMESPACE, and both controllers, then the health
  -- check and then the ready check were added to it, with nothing in between.
  abbrev pub Prepared : W → rt.Manager → W → Type 0
  Prepared w mgr v =
      (flags : Flags) × (text : String) × (namespaces : Dict (Unit {0})) × (u : W) × (u_mgr : W)
      × (u_collections : W) × (u_sets : W) × (u_health : W) × (rt.parse_flags default_flags w
          ≡ (ok flags, u))
      × (rt.lookup_env "WATCH_NAMESPACE" u ≡ some text)
      × (get_watch_namespaces (some text) ≡ ok namespaces)
      × (rt.new_manager (wanted_options flags namespaces) u ≡ (ok mgr, u_mgr))
      × (rt.complete_controller mgr glidein_set_collections u_mgr ≡ (ok tt, u_collections))
      × (rt.complete_controller mgr glidein_sets u_collections ≡ (ok tt, u_sets))
      × (rt.add_healthz_check mgr "healthz" u_sets ≡ (ok tt, u_health))
      × (rt.add_readyz_check mgr "readyz" u_health ≡ (ok tt, v))

  abbrev with_ready : rt.Manager → (rt.Manager → Exec W (Unit {0})) → Exec W (Unit {0})
  with_ready mgr start = rt.add_readyz_check mgr "readyz" >>= λ _. start mgr

  abbrev with_health : rt.Manager → (rt.Manager → Exec W (Unit {0})) → Exec W (Unit {0})
  with_health mgr start = rt.add_healthz_check mgr "healthz" >>= λ _. with_ready mgr start

  abbrev with_sets : rt.Manager → (rt.Manager → Exec W (Unit {0})) → Exec W (Unit {0})
  with_sets mgr start = rt.complete_controller mgr glidein_sets >>= λ _. with_health mgr start

  abbrev with_collections : rt.Manager → (rt.Manager → Exec W (Unit {0})) → Exec W (Unit {0})
  with_collections mgr start =
      rt.complete_controller mgr glidein_set_collections >>= λ _. with_sets mgr start

  abbrev with_manager :
      Flags → Dict (Unit {0}) → (rt.Manager → Exec W (Unit {0})) → Exec W (Unit {0})
  with_manager flags namespaces start =
      rt.new_manager (manager_options flags namespaces) >>= λ mgr. with_collections mgr start

  abbrev with_env : Flags → Option String → (rt.Manager → Exec W (Unit {0})) → Exec W (Unit {0})
  with_env flags env start =
      lift (get_watch_namespaces env) >>= λ namespaces. with_manager flags namespaces start

  manager-StartsLast :
      (w : W) (flags : Flags) (text : String) (namespaces : Dict (Unit {0})) (u : W)
      → rt.parse_flags default_flags w ≡ (ok flags, u)
      → rt.lookup_env "WATCH_NAMESPACE" u ≡ some text
      → get_watch_namespaces (some text) ≡ ok namespaces
      → StartsLast (Prepared w) (with_manager flags namespaces) u
  manager-StartsLast w flags text namespaces u parsed env got =
      StartsLast-bind (Prepared w) (rt.new_manager (manager_options flags namespaces))
        with_collections u
        λ mgr u_mgr made.
          StartsLast-bind (Prepared w) (rt.complete_controller mgr glidein_set_collections)
            (λ _. with_sets mgr) u_mgr
            λ _ u_collections first.
              StartsLast-bind (Prepared w) (rt.complete_controller mgr glidein_sets)
                (λ _. with_health mgr) u_collections
                λ _ u_sets second.
                  StartsLast-bind (Prepared w) (rt.add_healthz_check mgr "healthz")
                    (λ _. with_ready mgr) u_sets
                    λ _ u_health health.
                      StartsLast-bind (Prepared w) (rt.add_readyz_check mgr "readyz")
                        (λ _ start. start mgr) u_health
                        λ _ v ready. inl (
                          mgr,
                          v,
                          (
                            flags,
                            text,
                            namespaces,
                            u,
                            u_mgr,
                            u_collections,
                            u_sets,
                            u_health,
                            parsed,
                            env,
                            got,
                            ap (λ options. rt.new_manager options u)
                                  (sym (manager_options_lem flags namespaces))
                                ∙ made,
                            first,
                            second,
                            health,
                            ready,
                          ),
                          λ start. refl,
                        )

  env-StartsLast :
      (w : W) (flags : Flags) (env : Option String) (u : W)
      → rt.parse_flags default_flags w ≡ (ok flags, u)
      → rt.lookup_env "WATCH_NAMESPACE" u ≡ env
      → StartsLast (Prepared w) (with_env flags env) u
  unfolding lift get_watch_namespaces ◌>>=◌
  env-StartsLast w flags none u parsed unset = inr (err _, u, (λ q. cc), λ start. refl)
  env-StartsLast w flags (some text) u parsed set =
      manager-StartsLast w flags text _ u parsed set refl

  -- Whatever starting a manager does: `main` calls it at most once and last, on the manager that was
  -- made of its flags and of WATCH_NAMESPACE, after both controllers, the health check and the ready
  -- check were added to it one after the other; or it ends in an error or a panic without a start.
  pub main-StartsLast :
      (w : W) → StartsLast (Prepared w) (λ start. main (record rt { start = start })) w
  unfolding main collections_setup_with_manager glidein_sets_setup_with_manager gets
  main-StartsLast w =
      StartsLast-bind (Prepared w) (rt.parse_flags default_flags)
        (λ flags start. gets (rt.lookup_env "WATCH_NAMESPACE") >>= λ env. with_env flags env start)
        w λ flags u parsed. env-StartsLast w flags (rt.lookup_env "WATCH_NAMESPACE" u) u parsed refl
