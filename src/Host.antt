-- ===== src/Host.antt =====
-- What the operator takes from the process around it: files, the YAML parser, base64 and the Git
-- update that the Glidein Manager's client library reports.
use gmos_k8s_operator.Prelude.{String, Bool, List}
use gmos_k8s_operator.Types.{Bytes, PilotSetManifiest}
use gmos_k8s_operator.Exec.{Error, Result}

-- os.DirEntry
pub record DirEntry : Type 0 where
  pub name : String
  pub is_dir : Bool

-- gmosClient.RepoUpdate
pub record RepoUpdate : Type 0 where
  pub path : String
  pub current_commit : String
  pub previous_commit : String

-- gmosClient.SecretValue
pub record SecretValue : Type 0 where
  pub name : String
  pub value : String
  pub version : String

-- The file system as one reconciliation sees it.
pub record Host : Type 0 where
  -- os.ReadFile, os.ReadDir, filepath.Join
  pub read_file : String → Result Bytes
  pub read_dir : String → Result (List DirEntry)
  pub join_path : List String → String
  -- errors.Is(err, os.ErrNotExist)
  pub is_not_exist : Error → Bool
  -- yaml.Unmarshal into a PilotSetManifiest
  pub unmarshal_manifest : Bytes → Result PilotSetManifiest
  -- base64.StdEncoding.DecodeString
  pub decode_base64 : String → Result Bytes
