-- ===== src/Poller/Isolation.antt =====
-- The loops over a poller's handlers, where one of the handlers fails or is served a short version.
use Prim.Native.String.{len, slice}
use gmos_k8s_operator.Prelude.{
  ℕ, ◌<◌, ◌≤◌, ◌↔◌, ◌⊎◌, inl, inr, ltb, Bool-cases, String, ◌≡◌, ◌≢◌, refl, sym, ap, ◌∙◌, some,
  Bool, true, false, List, [], ◌∷◌, ◌++◌, arith, eq-false, if◌then◌else◌,
}
use mathlib.Core.Path.{fun_ext}
use gmos_k8s_operator.Dict.{Dict}
use gmos_k8s_operator.Types.{PilotSetNamespaceConfig, PilotSetSecretSource}
use gmos_k8s_operator.Host.{RepoUpdate, SecretValue}
use gmos_k8s_operator.Exec.{
  Error, Result, ok, err, panic, Exec, pure, lift, if_ok, for_each, ◌>>=◌, ended, returned, failed,
  crashed, bind-ok, bind-err, bind-panic, if_ok-ok, if_ok-err,
}
use gmos_k8s_operator.Poller.Checks.{
  UpdateHandler, ManagerClient, max_label_length, prefix, check_handler_for_git_update,
  check_for_git_updates, update_secret, check_config_for_secret_update,
  check_handler_for_secret_update, check_for_secret_updates,
}

-- An action that returns, with an error or without.
pub record NoPanic {W A : Type 0} (m : Exec W A) : Type 0 where
  pub at : (w : W) → (m w).0 ≢ panic

module _ {W A : Type 0} where
  NoPanic-if_ok :
      (m : Exec W A) (f : A → Exec W (Unit {0}))
      → NoPanic m
      → ((a : A) → NoPanic (f a))
      → NoPanic (if_ok m f)
  NoPanic-if_ok m f hm hf = record {
    at = λ w. elim (ended (m w)) [
      | returned a w' p ↦ rw (if_ok-ok m f p) ((hf a).at w')
      | failed e w' p ↦ rw (if_ok-err m f p) (λ q. cc)
      | crashed w' p ↦ absurd (hm.at w (ap (λ (r : Result A × W). r.0) p))
    ];
  }

module _ {W : Type 0} where
  NoPanic-pure : NoPanic (pure {S = W} tt)
  unfolding pure
  NoPanic-pure = record { at = λ w q. cc }

  NoPanic-if :
      (b : Bool) (m n : Exec W (Unit {0})) → NoPanic m → NoPanic n → NoPanic (if b then m else n)
  NoPanic-if true m n hm hn = hm
  NoPanic-if false m n hm hn = hn

short_or_long : (n : ℕ) → (n < 63) ⊎ (63 ≤ n)
short_or_long n = elim (Bool-cases (ltb n 63)) [
  | inl short ↦ inl (ground arith)
  | inr long ↦ inr (ground arith)
]

prefix-short : (s : String) → len s < 63 → prefix s max_label_length ≡ panic
unfolding prefix
prefix-short s short = ground arith

prefix-long : (s : String) → 63 ≤ len s → prefix s max_label_length ≡ ok (slice s 0 63)
unfolding prefix
prefix-long s long = ground arith

module _ {W : Type 0} (client : ManagerClient W) where
  update_secret-short :
      (handler : UpdateHandler W) (source : PilotSetSecretSource) (value : SecretValue) (w : W)
      → len value.version < 63
      → update_secret client handler source value w ≡ (panic, w)
  unfolding update_secret lift
  update_secret-short handler source value w short =
      bind-panic (lift (prefix value.version max_label_length)) _
        (rw (prefix-short value.version short) refl)

  update_secret-NoPanic :
      (handler : UpdateHandler W) (source : PilotSetSecretSource) (value : SecretValue) (w : W)
      → 63 ≤ len value.version
      → NoPanic handler.get_secret_sync_state
      → ((value : SecretValue) → NoPanic (handler.apply_secret_update source value))
      → (update_secret client handler source value w).0 ≢ panic
  unfolding update_secret lift ◌>>=◌
  update_secret-NoPanic handler source value w long reads stores =
      rw (prefix-long value.version long) (
        (NoPanic-if_ok handler.get_secret_sync_state _ reads λ current.
            NoPanic-if _ _ _ NoPanic-pure (NoPanic-if_ok _ pure (stores _) λ u. NoPanic-pure)).at
          w)

  -- For a handler whose own calls return, and whose manifest names a secret and a place for it: if
  -- the secret is served, the secret check of the handler ends in a panic exactly if the version
  -- served is shorter than 63 bytes.
  pub short_version_panics :
      (resource : String) (handler : UpdateHandler W) (config : PilotSetNamespaceConfig)
      (value : SecretValue) (w w' w'' : W)
      → handler.get_git_sync_state w ≡ (ok (some config), w')
      → config.secret_source.secret_name ≢ ""
      → config.secret_source.dst ≢ ""
      → client.get_secret config.secret_source.secret_name w' ≡ (ok value, w'')
      → NoPanic handler.get_secret_sync_state
      → ((source : PilotSetSecretSource) (value : SecretValue)
          → NoPanic (handler.apply_secret_update source value))
      → ((check_handler_for_secret_update client (resource, handler) w).0 ≡ panic)
        ↔ (len value.version < 63)
  unfolding check_handler_for_secret_update check_config_for_secret_update
  short_version_panics resource handler config value w w' w'' known named placed got reads stores =
      rw
        (
          if_ok-ok handler.get_git_sync_state (check_config_for_secret_update client handler) known,
          eq-false _ "" named,
          eq-false _ "" placed,
          if_ok-ok (client.get_secret config.secret_source.secret_name)
              (update_secret client handler config.secret_source) got,
        )
        (
          λ panicked. elim (short_or_long (len value.version)) [
            | inl short ↦ short
            | inr long ↦ absurd (
                update_secret-NoPanic handler config.secret_source value w'' long reads
                  (stores config.secret_source) panicked)
          ],
          λ short.
              ap (λ (r : Result (Unit {0}) × W). r.0)
                (update_secret-short handler config.secret_source value w'' short),
        )

module _ {W : Type 0} where
  for_each-skip :
      {A : Type 0} (f : A → Exec W (Unit {0})) (x : A)
      → ((w : W) → f x w ≡ (ok tt, w))
      → (before after : List A) (w : W)
      → for_each (before ++ (x ∷ after)) f w ≡ for_each (before ++ after) f w
  unfolding for_each
  for_each-skip f x h [] after w = bind-ok (f x) _ (h w)
  for_each-skip f x h (y ∷ before) after w = elim (ended (f y w)) [
    | returned a w' p ↦
        bind-ok (f y) _ p ∙ for_each-skip f x h before after w' ∙ sym (bind-ok (f y) _ p)
    | failed e w' p ↦ bind-err (f y) _ p ∙ sym (bind-err (f y) _ p)
    | crashed w' p ↦ bind-panic (f y) _ p ∙ sym (bind-panic (f y) _ p)
  ]

  -- A handler whose Git state cannot be read, which fails with an error and changes nothing, does
  -- not keep the others from their updates: both ticks go as they would without that handler.
  pub ticks_skip :
      (client : ManagerClient W) (before after : Dict (UpdateHandler W)) (resource : String)
      (handler : UpdateHandler W) (failure : Error)
      → ((w : W) → handler.get_git_sync_state w ≡ (err failure, w))
      → (w : W)
      → (check_for_git_updates client (before ++ ((resource, handler) ∷ after)) w
          ≡ check_for_git_updates client (before ++ after) w)
        × (check_for_secret_updates client (before ++ ((resource, handler) ∷ after)) w
            ≡ check_for_secret_updates client (before ++ after) w)
  unfolding check_for_git_updates check_for_secret_updates check_handler_for_git_update
      check_handler_for_secret_update
  ticks_skip client before after resource handler failure fails w = (
    ap (λ (f : RepoUpdate → Exec W (Unit {0})). if_ok client.sync_repo f w)
        (fun_ext λ update. fun_ext λ v.
          for_each-skip (check_handler_for_git_update client update) (resource, handler)
            (λ v. if_ok-err handler.get_git_sync_state _ (fails v)) before after v),
    for_each-skip (check_handler_for_secret_update client) (resource, handler)
        (λ v. if_ok-err handler.get_git_sync_state _ (fails v)) before after w,
  )
