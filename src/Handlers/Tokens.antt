-- ===== src/Handlers/Tokens.antt =====
-- The tokens of the local collector: what applyTokensUpdate writes, and what shouldUpdateTokens looks
-- for.
use mathlib.Core.Option
use gmos_k8s_operator.Prelude.{
  String, ◌≡◌, refl, Option, none, some, true, false, ◌||◌, List, [], ◌∷◌, arith,
}
use gmos_k8s_operator.Dict
use gmos_k8s_operator.Exec.{ok, pure, modify, ◌>>=◌}
use gmos_k8s_operator.Types.{K8s, Bytes, ObjectMeta, Secret}
use gmos_k8s_operator.Kube.{Kube}
use gmos_k8s_operator.ApiUtil.{PilotSetReconcileState}
use gmos_k8s_operator.Host.{Host}
use gmos_k8s_operator.Schemas.{
  empty_map_key, empty_secret_creator, collector_token_key, collector_token_secret_updater,
  drop_placeholder,
}
use gmos_k8s_operator.Handlers.{checked_token_key, lacks_token, decide_update}

-- What the API server makes of a secret that it is sent: the keys of stringData are added to those of
-- data.
pub record IsSecretServer (server : Secret → Secret) : Type 0 where
  pub has_key-server :
      (k : String) (s : Secret)
      → Dict.has_key k (Option.get_or (server s).content []) ≡ (
          Dict.has_key k (Option.get_or s.string_data [])
          || Dict.has_key k (Option.get_or s.content []))

module _ (server : Secret → Secret) (S : IsSecretServer server) where
  -- The secret after each of these tokens was written to it in turn.
  unfoldable pub renewals : List String → Secret → Secret
  renewals [] secret = secret
  renewals (token ∷ tokens) secret =
      renewals tokens
        (server ((collector_token_secret_updater token).update_resource_value secret).1)

  -- Dropping the placeholder adds no key.
  has_key-drop :
      (k p : String) (content : Option (Dict.Dict Bytes))
      → Dict.has_key k (Option.get_or content []) ≡ false
      → Dict.has_key k (Option.get_or (Option.map (Dict.erase p) content) []) ≡ false
  has_key-drop k p none h = h
  has_key-drop k p (some d) h = ground (arith, Dict.has_key-erase k p d)

  has_key-collector_token :
      (token : String) → Dict.has_key checked_token_key ((collector_token_key, token) ∷ []) ≡ false
  unfolding Dict.has_key Dict.lookup
  has_key-collector_token token = refl

  lacks-written :
      (token : String) (secret : Secret)
      → lacks_token secret ≡ true
      → lacks_token (server ((collector_token_secret_updater token).update_resource_value secret).1)
        ≡ true
  unfolding lacks_token collector_token_secret_updater drop_placeholder modify ◌>>=◌
  lacks-written token secret h = rw (
    S.has_key-server,
    has_key-collector_token token,
    has_key-drop checked_token_key empty_map_key secret.content (ground arith),
  )

  lacks-renewals :
      (tokens : List String) (secret : Secret)
      → lacks_token secret ≡ true
      → lacks_token (renewals tokens secret) ≡ true
  unfolding renewals
  lacks-renewals [] secret h = h
  lacks-renewals (token ∷ tokens) secret h = lacks-renewals tokens _ (lacks-written token secret h)

  lacks-empty :
      (owner : ObjectMeta) (secret : Secret)
      → lacks_token (empty_secret_creator.set_resource_value owner secret).1 ≡ true
  unfolding lacks_token empty_secret_creator modify Dict.has_key Dict.lookup
  lacks-empty owner secret = refl

  -- Where the server adds the keys of stringData to those of data: however often tokens were
  -- written to the collector's token secret that the operator created, the next decision, if both
  -- secrets can be read, is to renew them again.
  pub decide_update-renewals :
      {k : K8s} (kube : Kube k) (host : Host) (new_secret : Secret) (pr : PilotSetReconcileState)
      (owner : ObjectMeta) (blank ep_sec : Secret) (tokens : List String) (w : kube.Cluster)
      → decide_update kube host new_secret pr
          (none, renewals tokens (empty_secret_creator.set_resource_value owner blank).1)
          (none, ep_sec)
          w
        ≡ (ok true, w)
  unfolding decide_update pure
  decide_update-renewals kube host new_secret pr owner blank ep_sec tokens w = rw (
      lacks-renewals tokens (empty_secret_creator.set_resource_value owner blank).1
        (lacks-empty owner blank))
