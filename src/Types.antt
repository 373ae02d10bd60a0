-- ===== src/Types.antt =====
-- api/v1alpha1: the custom resources and the manifest schema, with the parts of Kubernetes' own
-- types that the operator reads or writes.
use gmos_k8s_operator.Prelude.{ℕ, String, Option, List}
use gmos_k8s_operator.Dict.{Dict}

-- int32 and int64 fields. The operator stores them and computes nothing from them.
pub data ℤ : Type 0 where
  pos : ℕ → ℤ
  negsuc : ℕ → ℤ

-- []byte
abbrev pub Bytes : Type 0
Bytes = List ℕ

-- Types of k8s.io/api/core/v1 that the specs carry unread.
pub record K8s : Type 1 where
  pub ResourceRequirements : Type 0
  pub Toleration : Type 0
  pub VolumeSource : Type 0

-- metav1.ObjectMeta: the fields that the operator uses; `controller` is the name of the owner that
-- `SetControllerReference` records.
pub record ObjectMeta : Type 0 where
  pub name : String
  pub namespace : String
  pub labels : Option (Dict String)
  pub finalizers : List String
  pub deletion_timestamp : Option ℕ
  pub controller : Option String

-- types.NamespacedName
pub record NamespacedName : Type 0 where
  pub namespace : String
  pub name : String

-- corev1.Secret; `none` is a nil map
pub record Secret : Type 0 where
  pub meta : ObjectMeta
  pub content : Option (Dict Bytes)
  pub string_data : Option (Dict String)

pub record PilotSetVolumeMount : Type 0 where
  pub src : String
  pub dst : String

pub record PilotSetSecretSource : Type 0 where
  pub secret_name : String
  pub dst : String

pub record PilotSetSecurity : Type 0 where
  pub user : ℤ
  pub group : ℤ

pub record PilotSetEnv : Type 0 where
  pub name : String
  pub value : String

pub record PilotSetNamespaceConfig : Type 0 where
  pub namespace : String
  pub image : String
  pub security : PilotSetSecurity
  pub volume : PilotSetVolumeMount
  pub secret_source : PilotSetSecretSource
  pub env : List PilotSetEnv
  pub command : List String
  pub repo_path : String
  pub current_commit : String
  pub previous_commit : String
  pub current_secret_version : String

-- internal/controller/pilotset_manifest.go
pub record PilotSetManifiest : Type 0 where
  pub version : String
  pub manifests : List PilotSetNamespaceConfig

module _ (k : K8s) where
  pub record PrometheusMonitoringSpec : Type 0 where
    pub service_account : String
    pub storage_volume : Option k.VolumeSource

  pub record GlideinSetSpec : Type 0 where
    pub name : String
    pub size : ℤ
    pub glidein_manager_url : String
    pub local_collector_url : String
    pub resources : k.ResourceRequirements
    pub priority_class_name : String
    pub node_selector : Option (Dict String)
    pub tolerations : List k.Toleration

  pub record GlideinSetCollectionSpec : Type 0 where
    pub glidein_manager_url : String
    pub prometheus : PrometheusMonitoringSpec
    pub glidein_sets : List GlideinSetSpec

  pub record GlideinSetCollection : Type 0 where
    pub meta : ObjectMeta
    pub spec : GlideinSetCollectionSpec

  pub record GlideinSet : Type 0 where
    pub meta : ObjectMeta
    pub spec : GlideinSetSpec
    pub remote_manifest : Option PilotSetNamespaceConfig
