-- ===== src/Sync/Tombstones/Lines.antt =====
-- bufio.Scanner with ScanLines, as loadTombstones of sync/engine.go uses it.
use mydrive.Base.{
  ℕ, ◌*◌, ◌<◌, ◌≡◌, refl, List, [], ◌∷◌, ◌++◌, false, Text, ltb, length, arith, ◌==◌, nat_eq,
  if◌then◌else◌, All, reverse, lt→ltb,
}

-- A byte before the lines of the text behind it.
abbrev prepend : ℕ → List Text → List Text
prepend c [] = (c ∷ []) ∷ []
prepend c (l ∷ ls) = (c ∷ l) ∷ ls

-- The lines of a text; a last one without its newline counts, unless it is empty.
unfoldable pub lines : Text → List Text
lines [] = []
lines (c ∷ t) = let rest = lines t in if c == 10 then [] ∷ rest else prepend c rest

-- A line that does not fit into the buffer of 64 KB ends the scan.
unfoldable pub fitting : List Text → List Text
fitting [] = []
fitting (l ∷ ls) = let rest = fitting ls in if ltb (length l) (64 * 1024) then l ∷ rest else []

abbrev pub drop_cr_reversed : Text → Text
drop_cr_reversed [] = []
drop_cr_reversed (c ∷ t) = if c == 13 then t else c ∷ t

-- ScanLines drops a carriage return at the end of a line.
unfoldable pub drop_cr : Text → Text
drop_cr l = reverse (drop_cr_reversed (reverse l))

unfoldable pub map_drop_cr : List Text → List Text
map_drop_cr [] = []
map_drop_cr (l ∷ ls) = drop_cr l ∷ map_drop_cr ls

-- The successive values of scanner.Text().
unfoldable pub scan_lines : Text → List Text
scan_lines t = map_drop_cr (fitting (lines t))

-- A text without a newline before a newline is one line.
pub lines-append : (l t : Text) → All (λ c. (c == 10) ≡ false) l → lines (l ++ 10 ∷ t) ≡ l ∷ lines t
unfolding lines
lines-append [] t h = refl
lines-append (c ∷ l) t h = ground (arith, lines-append l t h.1)

-- Such a line is scanned if it fits and does not end in a carriage return.
pub scan_lines-append :
    (l t : Text)
    → All (λ c. (c == 10) ≡ false) l
    → length l < 64 * 1024
    → drop_cr l ≡ l
    → scan_lines (l ++ 10 ∷ t) ≡ l ∷ scan_lines t
unfolding scan_lines fitting map_drop_cr
scan_lines-append l t h k e = rw (lines-append l t h, lt→ltb (length l) (64 * 1024) k, e)
