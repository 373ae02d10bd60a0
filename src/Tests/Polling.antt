-- ===== src/Tests/Polling.antt =====
-- A poller and its ticks, with a client that counts its handshakes.
use Prim.Native.String.{len}
use gmos_k8s_operator.Prelude.{
  ℕ, zero, suc, ltb, ◌+◌, ◌<>◌, ◌≡◌, ◌≢◌, refl, some, true, false, ◌||◌, ◌↔◌, ◌<◌, List, [], ◌∷◌,
}
use gmos_k8s_operator.Types.{pos, PilotSetNamespaceConfig, PilotSetSecretSource}
use gmos_k8s_operator.Host.{SecretValue}
use gmos_k8s_operator.Exec.{Error, message, ok, err, panic, join_all, check}
use gmos_k8s_operator.FilePath.{split}
use gmos_k8s_operator.FilePath.Split.{has_slash, is_dir, split_lem}
use gmos_k8s_operator.Poller.{
  Loops, no_loops, start_polling, stop_polling, data_done, handshake_failed, LoopSteps, here, next,
}
use gmos_k8s_operator.Poller.Checks.{
  UpdateHandler, ManagerClient, check_for_git_updates, check_for_secret_updates,
  check_handler_for_secret_update, do_handshake_with_retry,
}
use gmos_k8s_operator.Poller.Lifecycle.{
  stopped_early, stop_before_start, failures, stop_leaves_loop,
}
use gmos_k8s_operator.Poller.Isolation.{NoPanic, ticks_skip, short_version_panics}
use gmos_k8s_operator.Poller.Handshake.{
  length, Fails, none_yet, fail, do_handshake_with_retry-ok, do_handshake_with_retry-join_all,
}

split_example :
    ((split "/etc/tokens/tk").0 <> (split "/etc/tokens/tk").1 ≡ "/etc/tokens/tk")
    × (has_slash (split "/etc/tokens/tk").1 ≡ false)
    × (is_dir (split "/etc/tokens/tk").0 ≡ true)
split_example = split_lem "/etc/tokens/tk"

-- A poller that was told to stop twice before its start, and whose handshake fails after it.
abbrev started_late : Loops
started_late = start_polling (stopped_early 2)

refreshing : started_late.refresh_loop ≡ true
unfolding start_polling stopped_early stop_polling
refreshing = refl

failed_once : LoopSteps started_late (record started_late { refresh_loop = false })
failed_once = next here (handshake_failed started_late refreshing)

stop_before_start_example :
    (started_late.data_loop ≡ true)
    × (started_late.senders ≡ 0)
    × (false ≡ ltb (failures failed_once) 1)
stop_before_start_example = stop_before_start 2 failed_once

abbrev stopped_loops : Loops
stopped_loops = stop_polling (start_polling no_loops)

one_step : LoopSteps stopped_loops (record stopped_loops { data_loop = false; senders = 0 })
unfolding start_polling stop_polling
one_step = next here (data_done stopped_loops 0 refl refl)

one_step-failures : failures one_step ≡ 0
unfolding one_step failures
one_step-failures = refl

one_left : (record stopped_loops { data_loop = false; senders = 0 }).refresh_loop ≡ true
unfolding start_polling stop_polling
one_left = refl

stop_leaves_loop_example : false || stopped_loops.refresh_loop ≡ true
stop_leaves_loop_example = stop_leaves_loop one_step one_step-failures

-- The client's state is how often a handshake still fails.
abbrev pub flaky : ManagerClient ℕ
flaky = record {
  sync_repo =
      λ n. (ok (record { path = "/tmp/repo"; current_commit = "b2"; previous_commit = "a1" }), n);
  get_secret = λ name n. (ok (record { name = name; value = "c2VjcmV0"; version = "7" }), n);
  do_handshake = λ port n. elim n [ zero ↦ (ok tt, 0) | suc n ↦ (err (message "refused"), n) ];
}

abbrev refused : List Error
refused = message "refused" ∷ message "refused" ∷ []

two_fail : Fails flaky refused 2 0
two_fail =
    fail (message "refused") (message "refused" ∷ []) 2 1 0 refl
      (fail (message "refused") [] 1 0 0 refl (none_yet 0))

do_handshake_with_retry-ok_example :
    do_handshake_with_retry flaky (length refused + suc 12) 2 ≡ (ok tt, 0)
do_handshake_with_retry-ok_example = do_handshake_with_retry-ok flaky refused 2 0 0 12 two_fail refl

do_handshake_with_retry-join_all_example :
    do_handshake_with_retry flaky (length refused) 2 ≡ check (join_all refused) 0
do_handshake_with_retry-join_all_example =
    do_handshake_with_retry-join_all flaky refused 2 0 two_fail

abbrev pub config : PilotSetNamespaceConfig
config = record {
  namespace = "osg";
  image = "pilot:1";
  security = record { user = pos 1000; group = pos 1000 };
  volume = record { src = "data"; dst = "/data" };
  secret_source = record { secret_name = "token"; dst = "/etc/tokens/tk" };
  env = [];
  command = [];
  repo_path = "/tmp/repo";
  current_commit = "a1";
  previous_commit = "";
  current_secret_version = "";
}

-- A handler that counts its updates, and one whose resource is gone.
abbrev counting : UpdateHandler ℕ
counting = record {
  apply_git_update = λ update n. (ok tt, suc n);
  get_git_sync_state = λ n. (ok (some config), n);
  get_secret_sync_state = λ n. (ok "", n);
  apply_secret_update = λ source value n. (err (message "conflict"), n);
}

abbrev gone : UpdateHandler ℕ
gone = record counting { get_git_sync_state = λ n. (err (message "NotFound"), n) }

ticks_skip_example :
    (check_for_git_updates flaky (("a", gone) ∷ ("b", counting) ∷ []) 3
      ≡ check_for_git_updates flaky (("b", counting) ∷ []) 3)
    × (check_for_secret_updates flaky (("a", gone) ∷ ("b", counting) ∷ []) 3
        ≡ check_for_secret_updates flaky (("b", counting) ∷ []) 3)
ticks_skip_example =
    ticks_skip flaky [] (("b", counting) ∷ []) "a" gone (message "NotFound") (λ n. refl) 3

named : config.secret_source.secret_name ≢ ""
named h = cc

placed : config.secret_source.dst ≢ ""
placed h = cc

stores :
    (source : PilotSetSecretSource) (value : SecretValue)
    → NoPanic (counting.apply_secret_update source value)
stores source value = record { at = λ n h. cc }

reads : NoPanic counting.get_secret_sync_state
reads = record { at = λ n h. cc }

abbrev served : SecretValue
served = record { name = "token"; value = "c2VjcmV0"; version = "7" }

short_version_panics_example :
    ((check_handler_for_secret_update flaky ("b", counting) 3).0 ≡ panic)
    ↔ (len served.version < 63)
short_version_panics_example =
    short_version_panics flaky "b" counting config served 3 3 3 refl named placed refl reads stores
