-- ===== src/Poller/Handshake.antt =====
-- doHandshakeWithRetry: how often it tries, and what it returns.
use gmos_k8s_operator.Prelude.{ℕ, suc, ◌+◌, ◌≡◌, refl, sym, ap, ◌∙◌, List, [], ◌∷◌, ◌++◌}
use Prim.Native.Nat.add
use native.Mathlib.Nat.{add-zero}
use mathlib.Core.List.{append-nil, append_assoc}
use gmos_k8s_operator.Exec.{
  Error, ok, err, join_all, check, attempt, pure, bind-ok, attempt-ok, attempt-err,
}
use gmos_k8s_operator.Poller.Checks.{ManagerClient, retry_handshake, do_handshake_with_retry}

abbrev pub length {ℓ} : {A : Type ℓ} → List A → ℕ
length [] = 0
length (x ∷ xs) = suc (length xs)

module _ {W : Type 0} (client : ManagerClient W) where
  -- From one state to another by handshakes that all fail, with these errors.
  pub data Fails : List Error → W → W → Type 0 where
    none_yet : (w : W) → Fails [] w w
    fail :
        (e : Error) (es : List Error) (w w' w'' : W)
        → client.do_handshake 8071 w ≡ (err e, w')
        → Fails es w' w''
        → Fails (e ∷ es) w w''

  retry-Fails :
      (more : ℕ) (errs es : List Error) (w w' : W)
      → Fails es w w'
      → retry_handshake client (length es + more) errs w
        ≡ retry_handshake client more (errs ++ es) w'
  unfolding retry_handshake
  retry-Fails more errs [] w w' (none_yet _) = rw (add.zero, append-nil)
  retry-Fails more errs (e ∷ es) w w' (fail _ _ _ v _ p f) =
      rw (add.suc, retry_handshake)
        (bind-ok (attempt (client.do_handshake 8071)) _ (attempt-err (client.do_handshake 8071) p)
          ∙ retry-Fails more (errs ++ (e ∷ [])) es v w' f
          ∙ rw append_assoc)

  -- After handshakes that fail and one that succeeds, it returns, if it was asked to try more often
  -- than they failed.
  pub do_handshake_with_retry-ok :
      (es : List Error) (w w' w'' : W) (more : ℕ)
      → Fails es w w'
      → client.do_handshake 8071 w' ≡ (ok tt, w'')
      → do_handshake_with_retry client (length es + suc more) w ≡ (ok tt, w'')
  unfolding do_handshake_with_retry retry_handshake
  do_handshake_with_retry-ok es w w' w'' more f p =
      retry-Fails (suc more) [] es w w' f
      ∙ bind-ok (attempt (client.do_handshake 8071)) _ (attempt-ok (client.do_handshake 8071) p)
      ∙ unfold pure in refl

  -- Where every handshake that it was asked for fails, it tries no more often than that, and ends
  -- with all their errors, joined in order.
  pub do_handshake_with_retry-join_all :
      (es : List Error) (w w' : W)
      → Fails es w w'
      → do_handshake_with_retry client (length es) w ≡ check (join_all es) w'
  unfolding do_handshake_with_retry retry_handshake
  do_handshake_with_retry-join_all es w w' f =
      ap (λ n. retry_handshake client n [] w) (sym (add-zero (length es)))
      ∙ retry-Fails 0 [] es w w' f
