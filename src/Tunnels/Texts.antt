-- ===== src/Tunnels/Texts.antt =====
-- The texts of the requests of pkg/hal/hal.go, a list of lines each.
pub mod Edits
pub mod Gets
pub mod Instances
use vmw_tsf.Prelude.{Str, List, [], ◌∷◌, ◌++◌}

unfoldable pub unlines : List Str → Str
unlines [] = []
unlines (l ∷ []) = l
unlines (l ∷ next ∷ rest) = l ++ b'\n' ∷ unlines (next ∷ rest)
