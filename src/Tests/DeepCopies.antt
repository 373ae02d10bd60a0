-- ===== src/Tests/DeepCopies.antt =====
-- DeepCopyObject on a GlideinSet with a config, and on the list that holds it.
use gmos_k8s_operator.Prelude.{ℕ, refl, String, [], ◌∷◌}
use gmos_k8s_operator.Dict
use gmos_k8s_operator.Types.{pos}
use gmos_k8s_operator.DeepCopy.{
  Pointer, null, at, slice, no_slice, StringMap, no_map, string_map, plain, pointers, string_maps,
}
use gmos_k8s_operator.DeepCopy.Fresh.{plain-IsDeepCopy, pointers-IsDeepCopy, string_maps-IsDeepCopy}
use gmos_k8s_operator.DeepCopy.Structs.{
  External, PilotSetNamespaceConfigStruct, GlideinSetStruct, glidein_set_status,
}
use gmos_k8s_operator.DeepCopy.Objects.{Object, glidein_set_list, deep_copy_object}
use gmos_k8s_operator.DeepCopy.Lawful.{IsExternal}
use gmos_k8s_operator.DeepCopy.Interface.{IsObjectCopy, deep_copy_object-IsObjectCopy}

-- Metadata with labels, resources that are texts, and a volume that may be missing.
abbrev kubernetes : External
kubernetes = record {
  TypeMeta = String;
  ObjectMeta = StringMap;
  ListMeta = String;
  ResourceRequirements = String;
  Toleration = Pointer ℕ;
  VolumeSource = String;
  object_meta = string_maps;
  list_meta = plain;
  resource_requirements = plain;
  toleration = pointers plain;
  volume_source = plain;
}

kubernetes-IsExternal : IsExternal kubernetes
kubernetes-IsExternal = record {
  object_meta = string_maps-IsDeepCopy;
  list_meta = plain-IsDeepCopy;
  resource_requirements = plain-IsDeepCopy;
  toleration = pointers-IsDeepCopy plain plain-IsDeepCopy;
  volume_source = plain-IsDeepCopy;
}

abbrev config : PilotSetNamespaceConfigStruct
config = record {
  namespace = "pilots";
  image = "glidein:1";
  security = record { user = pos 1000; group = pos 1000 };
  volume = record { src = "etc"; dst = "/etc/glidein" };
  secret_source = record { secret_name = "token"; dst = "/token" };
  env = slice 6 (record { name = "SITE"; value = "chtc" } ∷ []);
  command = no_slice;
  repo_path = "repo";
  current_commit = "c1";
  previous_commit = "c0";
  current_secret_version = "v1";
}

abbrev sample : GlideinSetStruct kubernetes
sample = record {
  type_meta = "GlideinSet";
  object_meta =
      string_map 1 (("app", "glidein") ∷ []) (unfold Dict.has_key Dict.lookup in refl, tt);
  spec = record {
    name = "large";
    size = pos 4;
    glidein_manager_url = "http://manager";
    local_collector_url = "";
    resources = "cpu: 8";
    priority_class_name = "low";
    node_selector = no_map;
    tolerations = slice 3 (null ∷ at 4 30 ∷ []);
  };
  remote_manifest = at 5 config;
  status = glidein_set_status;
}

abbrev sample_list : Object kubernetes
sample_list =
    glidein_set_list (
      at 7
        (record { type_meta = "GlideinSetList"; list_meta = "1"; items = slice 8 (sample ∷ []) }))

deep_copy_object-IsObjectCopy_example :
    IsObjectCopy kubernetes sample_list 9
      (deep_copy_object kubernetes sample_list 9).0
      (deep_copy_object kubernetes sample_list 9).1
deep_copy_object-IsObjectCopy_example =
    deep_copy_object-IsObjectCopy kubernetes kubernetes-IsExternal sample_list 9
