-- ===== src/Tests/Operator.antt =====
-- The GlideinSet controller and a poller's tick, over the operator's whole state.
use gmos_k8s_operator.Prelude.{String, Bool, false, ◌||◌, List, [], ◌∷◌}
use gmos_k8s_operator.Exec.{ok}
use gmos_k8s_operator.Types.{NamespacedName}
use gmos_k8s_operator.ResourceName.{rn_base, name_for}
use gmos_k8s_operator.Kube.Quiet.{same_key}
use gmos_k8s_operator.ApiUtil.{PilotSetReconcileState, child_key}
use gmos_k8s_operator.Poller.Checks.{ManagerClient, UpdateHandler}
use gmos_k8s_operator.Handlers.{update_handler}
use gmos_k8s_operator.Tests.Memory.{Memory}
use gmos_k8s_operator.Tests.Cluster.{sets, kube, osg}
use gmos_k8s_operator.Tests.Controllers.{host, no_secret, pilots_state, update, idle_client}

-- A manager whose repository has the commit of `update`.
abbrev serving : ManagerClient (Memory sets)
serving = record idle_client { sync_repo = λ w. (ok update, w) }

abbrev gone_state : PilotSetReconcileState
gone_state = record { resource = osg "gone" }

-- A handler of a GlideinSet that is there, and one of a GlideinSet that is gone.
abbrev registrations : List (String × PilotSetReconcileState)
registrations = ("osg/pilots-old", pilots_state) ∷ ("osg/gone", gone_state) ∷ []

abbrev handlers : List (String × UpdateHandler (Memory sets))
handlers =
    ("osg/pilots-old", update_handler kube host no_secret pilots_state)
    ∷ ("osg/gone", update_handler kube host no_secret gone_state)
    ∷ []

abbrev is_registered : NamespacedName → Bool
is_registered n =
    same_key (child_key pilots_state (name_for rn_base (osg "pilots-old"))) n
    || (same_key (child_key gone_state (name_for rn_base (osg "gone"))) n || false)
