-- ===== src/Tests/Watching.antt =====
-- GlideinSets that move between two managers.
use gmos_k8s_operator.Prelude.{
  ℕ, String, ◌≡◌, refl, none, some, true, false, ◌&&◌, not, List, [], ◌∷◌, arith, ◌==◌, eq_iff,
}
use gmos_k8s_operator.Dict
use gmos_k8s_operator.Poller.{GlideinManagerPoller, no_loops, has_update_handler_for_resource}
use gmos_k8s_operator.Watchers.{Watchers, remove_glidein_manager_watcher, add_watcher}
use gmos_k8s_operator.Watchers.Registered.{IsKeyed, registered}
use gmos_k8s_operator.Watchers.Removal.{AtMostOne, Reaches, registered-remove, remove_in_any_order}
use gmos_k8s_operator.Watchers.Guarantees.{
  WatcherCall, add, no_watchers, run, run-IsKeyed, add_at_known_manager, add_at_new_manager,
}

none-IsKeyed : IsKeyed {H = ℕ} no_watchers
unfolding Dict.lookup
none-IsKeyed = record { url_lem = λ url poller h. cc; used = λ url poller h. cc }

abbrev calls : List (WatcherCall ℕ)
calls = add [] "k8s" "a" "osg/pilots" 1 ∷ add ("a" ∷ []) "k8s" "b" "osg/others" 2 ∷ []

run-IsKeyed_example : IsKeyed (run calls no_watchers)
run-IsKeyed_example = run-IsKeyed calls no_watchers none-IsKeyed

abbrev poller : String → String → ℕ → GlideinManagerPoller ℕ
poller url resource handler = record {
  update_handlers = (resource, handler) ∷ [];
  host_name = "k8s";
  manager_url = url;
  work_dir = "/tmp";
  loops = no_loops;
}

-- The pollers of two managers, each with one GlideinSet.
abbrev two : Watchers ℕ
two = record {
  active = ("a", poller "a" "osg/pilots" 1) ∷ ("b", poller "b" "osg/others" 2) ∷ [];
  detached = [];
}

two-IsKeyed : IsKeyed two
unfolding Dict.lookup Dict.is_empty
two-IsKeyed = record {
  url_lem = λ url p h. ground (arith, eq_iff "a" url, eq_iff "b" url);
  used = λ url p h. ground (arith, eq_iff "a" url, eq_iff "b" url);
}

two-registered : (u : String) → registered two u "osg/pilots" ≡ ("a" == u)
unfolding registered Dict.lookup has_update_handler_for_resource Dict.has_key
two-registered u = ground (arith, eq_iff "a" u, eq_iff "b" u)

two-AtMostOne : AtMostOne two "osg/pilots"
two-AtMostOne u v hu hv =
    ground (arith, two-registered u, two-registered v, eq_iff "a" u, eq_iff "a" v)

two-Reaches : Reaches ("a" ∷ "b" ∷ []) two "osg/pilots"
two-Reaches u hu = ground (arith, two-registered u)

two-Reaches_backwards : Reaches ("b" ∷ "a" ∷ []) two "osg/pilots"
two-Reaches_backwards u hu = ground (arith, two-registered u)

registered-remove_example :
    registered (remove_glidein_manager_watcher ("a" ∷ "b" ∷ []) "osg/pilots" two) "a" "osg/pilots"
    ≡ (registered two "a" "osg/pilots" && not ("osg/pilots" == "osg/pilots"))
registered-remove_example =
    registered-remove ("a" ∷ "b" ∷ []) "osg/pilots" two two-IsKeyed two-Reaches two-AtMostOne "a"
      "osg/pilots"

remove_in_any_order_example :
    remove_glidein_manager_watcher ("a" ∷ "b" ∷ []) "osg/pilots" two
    ≡ remove_glidein_manager_watcher ("b" ∷ "a" ∷ []) "osg/pilots" two
remove_in_any_order_example =
    remove_in_any_order ("a" ∷ "b" ∷ []) ("b" ∷ "a" ∷ []) "osg/pilots" two two-IsKeyed two-AtMostOne
      two-Reaches two-Reaches_backwards

poller_b : Dict.lookup "b" two.active ≡ some (poller "b" "osg/others" 2)
unfolding Dict.lookup
poller_b = refl

no_poller_c : Dict.lookup "c" two.active ≡ none
unfolding Dict.lookup
no_poller_c = refl

pilots_at_a : registered two "a" "osg/pilots" ≡ true
pilots_at_a = two-registered "a"

add_at_known_manager_example :
    registered (add_watcher ("a" ∷ "b" ∷ []) "k8s" "b" "osg/pilots" 3 two) "a" "osg/pilots"
    ≡ ("b" == "a")
add_at_known_manager_example =
    add_at_known_manager ("a" ∷ "b" ∷ []) "k8s" "b" "osg/pilots" 3 two two-IsKeyed poller_b
      two-AtMostOne two-Reaches "a" "osg/pilots"

add_at_new_manager_example :
    (registered (add_watcher ("a" ∷ "b" ∷ []) "k8s" "c" "osg/pilots" 3 two) "a" "osg/pilots" ≡ true)
    × (registered (add_watcher ("a" ∷ "b" ∷ []) "k8s" "c" "osg/pilots" 3 two) "c" "osg/pilots"
        ≡ true)
    × (("c" == "a") ≡ false)
add_at_new_manager_example =
    add_at_new_manager ("a" ∷ "b" ∷ []) "k8s" "c" "osg/pilots" 3 two two-IsKeyed "a" no_poller_c
      pilots_at_a
