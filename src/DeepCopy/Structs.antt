-- ===== src/DeepCopy/Structs.antt =====
-- api/v1alpha1: the structs of glideinmanagerpilotset_types.go and pilotset_manifest_types.go as Go
-- keeps them in memory, where Types has their values. The structs of Kubernetes are parameters.
use gmos_k8s_operator.Prelude.{String}
use gmos_k8s_operator.Types.{
  ℤ, PilotSetEnv, PilotSetSecretSource, PilotSetSecurity, PilotSetVolumeMount,
}
use gmos_k8s_operator.DeepCopy.{Pointer, Slice, StringMap, Copier}

-- k8s.io/apimachinery/pkg/apis/meta/v1 and k8s.io/api/core/v1, with their own DeepCopyInto.
-- TypeMeta has none: it is two texts.
pub record External : Type 1 where
  pub TypeMeta : Type 0
  pub ObjectMeta : Type 0
  pub ListMeta : Type 0
  pub ResourceRequirements : Type 0
  pub Toleration : Type 0
  pub VolumeSource : Type 0
  pub object_meta : Copier ObjectMeta
  pub list_meta : Copier ListMeta
  pub resource_requirements : Copier ResourceRequirements
  pub toleration : Copier Toleration
  pub volume_source : Copier VolumeSource

pub record PilotSetNamespaceConfigStruct : Type 0 where
  pub namespace : String
  pub image : String
  pub security : PilotSetSecurity
  pub volume : PilotSetVolumeMount
  pub secret_source : PilotSetSecretSource
  pub env : Slice PilotSetEnv
  pub command : Slice String
  pub repo_path : String
  pub current_commit : String
  pub previous_commit : String
  pub current_secret_version : String

pub data GlideinSetStatus : Type 0 where
  glidein_set_status : GlideinSetStatus

pub data GlideinSetCollectionStatus : Type 0 where
  glidein_set_collection_status : GlideinSetCollectionStatus

module _ (ext : External) where
  pub record PrometheusMonitoringSpecStruct : Type 0 where
    pub service_account : String
    pub storage_volume : Pointer ext.VolumeSource

  pub record GlideinSetSpecStruct : Type 0 where
    pub name : String
    pub size : ℤ
    pub glidein_manager_url : String
    pub local_collector_url : String
    pub resources : ext.ResourceRequirements
    pub priority_class_name : String
    pub node_selector : StringMap
    pub tolerations : Slice ext.Toleration

  pub record GlideinSetCollectionSpecStruct : Type 0 where
    pub glidein_manager_url : String
    pub prometheus : PrometheusMonitoringSpecStruct
    pub glidein_sets : Slice GlideinSetSpecStruct

  pub record GlideinSetStruct : Type 0 where
    pub type_meta : ext.TypeMeta
    pub object_meta : ext.ObjectMeta
    pub spec : GlideinSetSpecStruct
    pub remote_manifest : Pointer PilotSetNamespaceConfigStruct
    pub status : GlideinSetStatus

  pub record GlideinSetCollectionStruct : Type 0 where
    pub type_meta : ext.TypeMeta
    pub object_meta : ext.ObjectMeta
    pub spec : GlideinSetCollectionSpecStruct
    pub status : GlideinSetCollectionStatus

  pub record GlideinSetList : Type 0 where
    pub type_meta : ext.TypeMeta
    pub list_meta : ext.ListMeta
    pub items : Slice GlideinSetStruct

  pub record GlideinSetCollectionList : Type 0 where
    pub type_meta : ext.TypeMeta
    pub list_meta : ext.ListMeta
    pub items : Slice GlideinSetCollectionStruct
