-- ===== src/Kube.antt =====
-- The Kubernetes client, which is not part of the repository: the calls that the operator makes on
-- objects of one type. Any of them may fail, and may change the cluster while doing so.
pub mod Quiet
pub mod Kinds
use gmos_k8s_operator.Prelude.{ℕ, String, Bool, List}
use gmos_k8s_operator.Types.{
  Bytes, K8s, ObjectMeta, NamespacedName, Secret, GlideinSet, GlideinSetCollection,
}
use gmos_k8s_operator.Exec.{Error, Exec, Cell}

-- `get` fills the object at the pointer; `create`, `update` and `delete` send it.
pub record Api (W T : Type 0) : Type 0 where
  pub get : NamespacedName → Exec (Cell T W) (Unit {0})
  pub create : Exec (Cell T W) (Unit {0})
  pub update : Exec (Cell T W) (Unit {0})
  pub delete : Exec (Cell T W) (Unit {0})
  -- ctrl.SetControllerReference with the given owner
  pub set_controller_reference : ObjectMeta → Exec T (Unit {0})
  pub get_name : T → String
  pub set_name : String → T → T
  pub set_namespace : String → T → T

-- An object's metadata.
pub record HasMeta (T : Type 0) : Type 0 where
  pub meta : T → ObjectMeta
  pub set_meta : ObjectMeta → T → T

abbrev pub glidein_set_meta : (k : K8s) → HasMeta (GlideinSet k)
glidein_set_meta k = record {
  meta = λ glidein_set. glidein_set.meta;
  set_meta = λ meta glidein_set. record glidein_set { meta = meta };
}

abbrev pub collection_meta : (k : K8s) → HasMeta (GlideinSetCollection k)
collection_meta k = record {
  meta = λ pilot_set. pilot_set.meta;
  set_meta = λ meta pilot_set. record pilot_set { meta = meta };
}

abbrev pub secret_meta : HasMeta Secret
secret_meta = record {
  meta = λ secret. secret.meta;
  set_meta = λ meta secret. record secret { meta = meta };
}

-- The finalizer functions of controllerutil, on the metadata of an object.
pub record FinalizerApi : Type 0 where
  pub contains_finalizer : String → ObjectMeta → Bool
  pub add_finalizer : String → ObjectMeta → ObjectMeta
  pub remove_finalizer : String → ObjectMeta → ObjectMeta

-- Everything that the controllers call. `Object` is a client.Object of a type that the decoder
-- chooses: a Deployment, a Service, a ConfigMap or a Secret.
pub record Kube (k : K8s) : Type 1 where
  pub Cluster : Type 0
  pub Object : Type 0
  -- apierrors.IsNotFound
  pub is_not_found : Error → Bool
  pub finalizers : FinalizerApi
  pub collections : Api Cluster (GlideinSetCollection k)
  pub glidein_sets : Api Cluster (GlideinSet k)
  pub secrets : Api Cluster Secret
  pub objects : Api Cluster Object
  -- List of GlideinSets with client.InNamespace and client.HasLabels, into the list at the pointer
  pub list_glidein_sets :
      String → List String → Exec (Cell (List (GlideinSet k)) Cluster) (Unit {0})
  -- &GlideinSetCollection{} and &GlideinSet{}
  pub new_collection : GlideinSetCollection k
  pub new_glidein_set : GlideinSet k
  -- rand.Read of so many bytes
  pub read_random : ℕ → Exec Cluster Bytes
