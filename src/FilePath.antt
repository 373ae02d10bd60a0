-- ===== src/FilePath.antt =====
-- path.Split of Go's library, by which pilotset_schemas.go names the token in a secret.
pub mod Split
use Prim.Native.Char.{Char, code}
use Prim.Native.String.{[] as nil, ◌∷◌ as ◌⊳◌}
use Prim.Native.Nat.{compare, Ordering}
use gmos_k8s_operator.Prelude.{String, Bool, true, false, ◌==◌, if◌then◌else◌}

abbrev pub is_slash : Char → Bool
is_slash c = elim (compare (code c) 47) [ Ordering.eq ↦ true | _ ↦ false ]

abbrev pub push : Char → String → String × String → String × String
push c tail (dir, file) =
    if dir == "" then (if is_slash c then (c ⊳ "", file) else ("", c ⊳ file)) else (c ⊳ dir, file)

-- The directory, with its final slash, and the file name.
unfoldable pub split : String → String × String
split nil = ("", "")
split (c ⊳ path) = push c path (split path)
