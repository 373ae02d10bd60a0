-- ===== src/CollectorClient/Tokens.antt =====
-- How new tokens are made, in the collector's pod.
use gmos_k8s_operator.Prelude.{
  String, ◌≡◌, refl, ◌∙◌, Bool, true, false, List, [], ◌∷◌, inl, inr, ◌==◌, eq_iff, Bool-cases,
  if◌then◌else◌,
}
use mathlib.Core.Path.{subst}
use gmos_k8s_operator.Types.{ObjectMeta}
use gmos_k8s_operator.Exec.{
  Error, Result, ok, err, message, pure, raise, lift, outcome, bind-eq-ok, if_ok-ok, ◌>>=◌,
}
use gmos_k8s_operator.CollectorClient.{
  CollectorUpdateHandler, Pod, PodClient, ExecOutput, only_pod, err_pod_not_running, token_command,
  exec_in_collector, apply_new_tokens, handle_token_updates,
}

-- The pod in which a token can be made, if there is one.
abbrev pub can_exec : List Pod → Bool
can_exec (pod ∷ []) = pod.phase == "Running"
can_exec _ = false

module _ {W : Type 0} (pods : PodClient W) where
  only_pod-ok :
      (owner : String) (items : List Pod) (pod : Pod) (v v' : W)
      → lift (only_pod owner items) v ≡ (ok pod, v')
      → items ≡ pod ∷ []
  unfolding lift only_pod
  only_pod-ok owner [] pod v v' h = cc
  only_pod-ok owner (p ∷ []) pod v v' h = cc
  only_pod-ok owner (p ∷ q ∷ items) pod v v' h = cc

  stream-running :
      (resource : ObjectMeta) (cmd : List String) (pod : Pod) (output : ExecOutput) (v w' : W)
      → (if pod.phase == "Running"
            then (pods.new_executor resource.namespace pod.name cmd >>= λ _.
                pods.stream resource.namespace pod.name cmd)
            else raise err_pod_not_running)
          v
        ≡ (ok output, w')
      → (pod.phase ≡ "Running")
        × (u : W) × (pods.stream resource.namespace pod.name cmd u ≡ (ok output, w'))
  unfolding raise
  stream-running resource cmd pod output v w' h = elim (Bool-cases (pod.phase == "Running")) [
    | inl runs ↦
        let (_, u, _, streamed) =
          bind-eq-ok (pods.new_executor resource.namespace pod.name cmd)
            (λ _. pods.stream resource.namespace pod.name cmd) v (rw runs at h) in
        ((eq_iff pod.phase "Running").0 runs, u, streamed)
    | inr waits ↦ absurd (cc (rw waits at h))
  ]

  -- A command that was run in the collector was run in the only pod that carries the collector's
  -- label in the namespace, and that pod was running; the output is that pod's.
  pub exec_in_collector-pod :
      (resource : ObjectMeta) (cmd : List String) (w w' : W) (output : ExecOutput)
      → exec_in_collector pods resource cmd w ≡ (ok output, w')
      → (pod : Pod) × (v : W) × (v' : W) × (u : W) × (pods.list_pods resource.namespace
            "gmos.chtc.wisc.edu/app=collector" v
          ≡ (ok (pod ∷ []), v'))
        × (pod.phase ≡ "Running")
        × (pods.stream resource.namespace pod.name cmd u ≡ (ok output, w'))
  unfolding exec_in_collector
  exec_in_collector-pod resource cmd w w' output h =
      let (_, v, _, h1) = bind-eq-ok pods.connect _ w h in
      let (items, v', found, h2) =
        bind-eq-ok (pods.list_pods resource.namespace "gmos.chtc.wisc.edu/app=collector") _ v h1 in
      let (pod, v'', picked, h3) = bind-eq-ok (lift (only_pod resource.name items)) _ v' h2 in
      let (runs, u, streamed) = stream-running resource cmd pod output v'' w' h3 in
      (
        pod,
        v,
        v',
        u,
        subst
            (λ l.
              ◌≡◌ {A = Result (List Pod) × W}
                (pods.list_pods resource.namespace "gmos.chtc.wisc.edu/app=collector" v) (ok l, v'))
            (only_pod-ok resource.name items pod v' v'' picked) found,
        runs,
        streamed,
      )

  no_pod :
      (resource : ObjectMeta) (cmd : List String) (items : List Pod) (w : W)
      → pods.connect w ≡ (ok tt, w)
      → pods.list_pods resource.namespace "gmos.chtc.wisc.edu/app=collector" w ≡ (ok items, w)
      → can_exec items ≡ false
      → (e : Error) × (exec_in_collector pods resource cmd w ≡ (err e, w))
  unfolding exec_in_collector only_pod lift raise ◌>>=◌
  no_pod resource cmd [] w connected found none_runs =
      (message "expected 1 collector pod", rw (connected, found) refl)
  no_pod resource cmd (pod ∷ []) w connected found none_runs =
      (err_pod_not_running, rw (connected, found, none_runs) refl)
  no_pod resource cmd (pod ∷ pod' ∷ items) w connected found none_runs =
      (message "expected 1 collector pod", rw (connected, found) refl)

  -- Where tokens are to be renewed, the pods can be listed without a change, and there is not exactly
  -- one collector pod or it does not run: no token is written, and the check ends without an error.
  pub handle_token_updates-no_pod :
      (resource : ObjectMeta) (handler : CollectorUpdateHandler W) (items : List Pod) (w w' : W)
      → handler.should_update_tokens w ≡ (ok true, w')
      → pods.connect w' ≡ (ok tt, w')
      → pods.list_pods resource.namespace "gmos.chtc.wisc.edu/app=collector" w' ≡ (ok items, w')
      → can_exec items ≡ false
      → handle_token_updates pods resource handler w ≡ (ok tt, w')
  unfolding handle_token_updates outcome apply_new_tokens pure ◌>>=◌
  handle_token_updates-no_pod resource handler items w w' asked connected found none_runs =
      let (e, failed_glidein) =
        no_pod resource (token_command "glidein@cluster.local") items w' connected found
          none_runs in
      let (e', failed_pilot) =
        no_pod resource (token_command "pilot@cluster.local") items w' connected found none_runs in
      if_ok-ok handler.should_update_tokens _ asked ∙ rw (failed_glidein, failed_pilot)
