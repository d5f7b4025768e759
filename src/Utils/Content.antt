-- ===== src/Utils/Content.antt =====
-- What (*os.File).WriteAt does to the content of a file: utils/fs.go and sync/engine.go write chunks
-- with it. A gap before the chunk is filled with zeros; an empty chunk writes nothing.
use mydrive.Base.{
  ℕ, ◌+◌, ◌-◌, ◌≡◌, [], ◌∷◌, ◌++◌, Text, length, take, drop, replicate, arith, append-nil,
  length-append, take-append, drop-append_add,
}

unfoldable pub overwrite : Text → Text → ℕ → Text
overwrite c [] off = c
overwrite c (x ∷ b) off =
    take off c ++ replicate (off - length c) 0 ++ (x ∷ b) ++ drop (off + length (x ∷ b)) c

-- Writing right behind a prefix of the file replaces what stands there.
pub overwrite-prefix :
    (a b c : Text) → overwrite (a ++ c) b (length a) ≡ a ++ b ++ drop (length b) c
unfolding overwrite
overwrite-prefix a [] c = rw append-nil
overwrite-prefix a (x ∷ b) c =
    let none : length a - length (a ++ c) ≡ 0 = omega (arith, length-append a c) in
    rw (take-append a c, none, drop-append_add a c (length (x ∷ b)), append-nil)
