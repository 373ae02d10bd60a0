-- ===== src/ResourceName.antt =====
-- internal/controller/pilotset_resourcenames.go
pub mod Clashes
use gmos_k8s_operator.Prelude.{String, ◌<>◌}
use gmos_k8s_operator.Types.{ObjectMeta}

abbrev pub ResourceName : Type 0
ResourceName = String

abbrev pub rn_base : ResourceName
rn_base = ""

abbrev pub rn_collector_tokens : ResourceName
rn_collector_tokens = "-collector-tokens"

abbrev pub rn_data : ResourceName
rn_data = "-data"

abbrev pub rn_tokens : ResourceName
rn_tokens = "-tokens"

abbrev pub rn_collector : ResourceName
rn_collector = "-collector"

abbrev pub rn_collector_sigkey : ResourceName
rn_collector_sigkey = "-collector-sigkey"

abbrev pub rn_collector_config : ResourceName
rn_collector_config = "-collector-cfg"

abbrev pub rn_prometheus : ResourceName
rn_prometheus = "-prometheus"

abbrev pub rn_prometheus_pushgateway : ResourceName
rn_prometheus_pushgateway = "-prometheus-pushgateway"

unfoldable pub name_for : ResourceName → ObjectMeta → String
name_for rn obj = obj.name <> rn

unfoldable pub namespaced_name : String → String → String
namespaced_name namespace name = namespace <> ("/" <> name)

unfoldable pub namespaced_name_for : ObjectMeta → String
unfolding namespaced_name
namespaced_name_for obj = namespaced_name obj.namespace obj.name
