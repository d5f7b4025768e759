-- ===== src/Sync/Tombstones.antt =====
-- sync/engine.go: the tombstone file, which keeps the tombstones and the known paths over a
-- restart. `saved` is the content that SaveTombstones writes, and `load_tombstones` reads one.
pub mod Lines
pub mod Trim
pub mod RoundTrip
use mydrive.Base.{
  ℕ, Option, none, some, List, [], ◌∷◌, ◌++◌, Bool, true, false, not, ◌&&◌, Text, bytes, ltb,
  length, drop, map, ◌==◌, text_eq, nat_eq, if◌then◌else◌,
}
use mydrive.Base.Dict
use mydrive.Base.Dict.{Dict}
use mydrive.Sync.Engine.{Engine, fresh_engine}
use mydrive.Sync.Tombstones.Lines.{scan_lines}
use mydrive.Sync.Tombstones.Trim.{trim_space}

abbrev newline : ℕ
newline = 10

-- fmt.Fprintf(f, "D:%s\n", p) for each key, or "K:%s\n".
unfoldable pub lines_of : Text → List Text → Text
lines_of mark [] = []
lines_of mark (p ∷ ps) = (mark ++ p) ++ newline ∷ lines_of mark ps

-- (*Engine).SaveTombstones: the content of the file afterwards, or `none` if it is removed.
unfoldable pub save_tombstones : Engine → Option Text
save_tombstones e =
    if length e.tombstones == 0 && length e.previous_paths == 0
    then none
    else some (
        lines_of (bytes "D:") (Dict.keys e.tombstones)
        ++ lines_of (bytes "K:") (Dict.keys e.previous_paths))

-- strings.HasPrefix(line, prefix)
unfoldable pub has_prefix : Text → Text → Bool
has_prefix t [] = true
has_prefix [] (c ∷ p) = false
has_prefix (b ∷ t) (c ∷ p) = b == c && has_prefix t p

abbrev learn_deleted : Text → Engine → Engine
learn_deleted p e = record e {
  tombstones = Dict.insert e.tombstones p true;
  previous_paths = Dict.insert e.previous_paths p true;
}

abbrev learn_known : Text → Engine → Engine
learn_known p e = record e { previous_paths = Dict.insert e.previous_paths p true }

-- The body of the loop of loadTombstones, behind the trimming of the line.
unfoldable pub load_trimmed : Text → Engine → Engine
load_trimmed line e =
    if line == []
    then e
    else if has_prefix line (bytes "D:")
    then learn_deleted (drop 2 line) e
    else if has_prefix line (bytes "K:")
    then learn_known (drop 2 line) e
    else learn_deleted line e

unfoldable pub load_lines : List Text → Engine → Engine
load_lines [] e = e
load_lines (line ∷ ls) e = load_lines ls (load_trimmed (trim_space line) e)

-- (*Engine).loadTombstones, from the content of the file if there is one.
unfoldable pub load_tombstones : Option Text → Engine → Engine
load_tombstones none e = e
load_tombstones (some t) e = load_lines (scan_lines t) e

-- NewEngine
unfoldable pub new_engine : Text → Option Text → Engine
new_engine base_dir file = load_tombstones file (fresh_engine base_dir)
