-- ===== src/Scheme.antt =====
-- api/v1alpha1/groupversion_info.go and the `init` of glideinmanagerpilotset_types.go: the types that
-- the operator adds to a scheme, under which group and version.
use gmos_k8s_operator.Prelude.{String, List, [], ◌∷◌}

-- schema.GroupVersion
pub record GroupVersion : Type 0 where
  pub group : String
  pub version : String

abbrev pub group_version : GroupVersion
group_version = record { group = "gmos.chtc.wisc.edu"; version = "v1alpha1" }

-- The Go types of the group that are a runtime.Object.
pub data ObjectType : Type 0 where
  glidein_set_collection_type glidein_set_type : ObjectType
  glidein_set_collection_list_type glidein_set_list_type : ObjectType

-- scheme.Builder, with the types that were registered
pub record SchemeBuilder : Type 0 where
  pub group_version : GroupVersion
  pub object_types : List ObjectType

unfoldable pub scheme_builder : SchemeBuilder
scheme_builder = record {
  group_version = group_version;
  object_types =
      glidein_set_collection_type ∷ glidein_set_type ∷ glidein_set_collection_list_type
      ∷ glidein_set_list_type ∷ [];
}
