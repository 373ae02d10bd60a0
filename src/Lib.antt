-- ===== src/Lib.antt =====
-- The operator of Glidein Manager pilot sets (the Go module gmos-k8s-operator): two controllers keep
-- the GlideinSets of a GlideinSetCollection, and the secrets and deployment of each GlideinSet, as
-- their custom resources say; a poller per Glidein Manager brings Git and secret updates, and a
-- client per GlideinSet renews the tokens of the local collector.
--
-- The parts, and the code that they model:
--   Types           api/v1alpha1/glideinmanagerpilotset_types.go, pilotset_manifest_types.go and
--                   internal/controller/pilotset_manifest.go; int32 and int64 are carried only
--   DeepCopy        api/v1alpha1/zz_generated.deepcopy.go, with the structs of that package as they are
--                   in memory; an address is the identity of what `new` or `make` returned
--   Scheme          api/v1alpha1/groupversion_info.go, and the registration of the types
--   ResourceName    internal/controller/pilotset_resourcenames.go
--   ApiUtil         internal/controller/api_util.go
--   Schemas, Manifest
--                   internal/controller/pilotset_schemas.go and collector_schemas.go
--   Template        internal/controller/templated_resources_editor.go, and how both controllers
--                   make a resource from a template
--   Reconcile       the frame of both Reconcile methods
--   Collection      internal/controller/glideinsetcollection_controller.go
--   Handlers        the methods of PilotSetReconcileState in both controllers' files
--   GlideinSets     internal/controller/glideinset_controller.go
--   Poller, Watchers
--                   internal/controller/glideinmanager_client.go: one poller and its ticks; the map
--                   activeGlideinManagerPollers
--   CollectorClient internal/controller/collector_client.go
--   Process         cmd/main.go, and SetupWithManager of both controllers
-- Below them are Text (texts and their parts), Dict (Go's maps), Exec (Go's errors and control
-- flow), Keeps (what an action keeps however it ends), FilePath (path.Split), Kube (the
-- Kubernetes client) and Host (files, YAML and base64). Kube/Quiet states what a cluster in
-- which nobody else acts does with a call, Kube/Kinds the same of the client's calls for objects
-- of every kind, where a Get goes by the kind of the object that it fills, and objects of two
-- kinds may share a name; and Tests runs the model on such a cluster in memory. Each part's
-- modules below it hold the proofs, under the name of what they prove.
--
-- How the code is rendered. A function that returns an error is an action on a state: it ends in
-- a value or an error, or it does not return (a panic, or a wait for ever), and keeps what it
-- wrote before. A pointer to a resource is a cell beside the cluster, so that a Get fills it. A
-- range loop over a map is a loop over a list of its keys, whose order is a parameter. The
-- goroutines of a poller are a step relation on their tickers, loops and pending sends, and so
-- is that of a collector client. The removal of a collector client waits for its goroutine to
-- receive the stop, and does not return where none runs; of a poller the send is left pending,
-- for either of its two goroutines to take. doHandshakeWithRetry counts its own tries, which
-- bounds its loop; all other loops run through a list. The GlideinSet controller and the pollers
-- share the watchers as a part of the state Operator; a handler is the PilotSetReconcileState
-- that was registered. A deep copy is an action on the next free address; elsewhere a resource
-- is a value.
--
-- Not modelled: logs, contexts, pauses and intervals of tickers; the YAML under
-- internal/controller/manifests and config, which is data of the template engine and of Kubernetes.
-- The Kubernetes client and the deep copies of Kubernetes' own types, client-go's pod access, the
-- Glidein Manager's client library, text/template, the YAML parser, base64 and the runtime of
-- cmd/main.go (flag, os and controller-runtime) are parameters.
mod Prelude
pub mod Text
pub mod Dict
pub mod Exec
pub mod Keeps
pub mod Types
pub mod DeepCopy
pub mod ResourceName
pub mod Kube
pub mod ApiUtil
pub mod Host
pub mod FilePath
pub mod Scheme
pub mod Schemas
pub mod Template
pub mod Manifest
pub mod Reconcile
pub mod Collection
pub mod Poller
pub mod Watchers
pub mod CollectorClient
pub mod Handlers
pub mod GlideinSets
pub mod Process
mod Tests
