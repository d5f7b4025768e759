-- ===== src/Os/Walk.antt =====
-- filepath.Walk: what lies below a directory, in lexical order, a directory before what it holds.
use mydrive.Base.{
  some, List, [], ◌∷◌, Bool, true, false, ◌&&◌, ◌||◌, Text, ltb, ◌==◌, nat_eq, text_eq,
  if◌then◌else◌,
}
use mydrive.Base.Dict.{Dict}
use mydrive.Os.{FilePath, path_eq, Node}
use mydrive.Os.Paths.{below}

unfoldable pub text_leb : Text → Text → Bool
text_leb [] t = true
text_leb (x ∷ s) [] = false
text_leb (x ∷ s) (y ∷ t) = ltb x y || (x == y && text_leb s t)

unfoldable pub names_leb : List Text → List Text → Bool
names_leb [] q = true
names_leb (a ∷ p) [] = false
names_leb (a ∷ p) (b ∷ q) = if a == b then names_leb p q else text_leb a b

-- What the walk meets: the names below the directory, the path, and the node.
pub record Visit : Type 0 where
  pub first : Text
  pub names : List Text
  pub path : FilePath
  pub node : Node

abbrev pub all_names : Visit → List Text
all_names v = v.first ∷ v.names

unfoldable pub insert_visit : Visit → List Visit → List Visit
insert_visit v [] = v ∷ []
insert_visit v (w ∷ ws) =
    let rest = insert_visit v ws in
    if names_leb (all_names v) (all_names w) then v ∷ w ∷ ws else w ∷ rest

unfoldable pub visits : FilePath → Dict FilePath Node → List Visit
visits base [] = []
visits base ((p, n) ∷ nodes) =
    let rest = visits base nodes in
    elim (below base p) [
      | some (f ∷ ns) ↦ insert_visit (record { first = f; names = ns; path = p; node = n }) rest
      | _ ↦ rest
    ]
