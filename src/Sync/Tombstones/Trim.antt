-- ===== src/Sync/Tombstones/Trim.antt =====
-- strings.TrimSpace, as loadTombstones of sync/engine.go uses it. The white space of Unicode, in
-- UTF-8: six bytes of ASCII, two characters of two bytes, and seventeen of three.
use mydrive.Base.{
  ℕ, zero, suc, ◌≡◌, refl, [], ◌∷◌, Bool, ◌&&◌, ◌||◌, Text, leb, length, drop, arith, ◌==◌, nat_eq,
  if◌then◌else◌, reverse, reverse-reverse, length-reverse, length-drop, not_zero, Bool-cases, inl,
  inr, ◌≤◌,
}

unfoldable pub is_ascii_space : ℕ → Bool
is_ascii_space c = (leb 9 c && leb c 13) || c == 32

-- U+0085 and U+00A0
unfoldable pub is_space_two : ℕ → ℕ → Bool
is_space_two a b = a == 0xC2 && (b == 0x85 || b == 0xA0)

-- U+1680, U+2000 to U+200A, U+2028, U+2029, U+202F, U+205F and U+3000
unfoldable pub is_space_three : ℕ → ℕ → ℕ → Bool
is_space_three a b c =
    (a == 0xE1 && b == 0x9A && c == 0x80)
    || (a == 0xE2
        && b == 0x80
        && ((leb 0x80 c && leb c 0x8A) || c == 0xA8 || c == 0xA9 || c == 0xAF))
    || (a == 0xE2 && b == 0x81 && c == 0x9F)
    || (a == 0xE3 && b == 0x80 && c == 0x80)

-- The length of the white space character at the front; 0 if there is none.
unfoldable pub space_len : Text → ℕ
unfolding is_ascii_space is_space_two is_space_three
space_len [] = 0
space_len (a ∷ []) = if is_ascii_space a then 1 else 0
space_len (a ∷ b ∷ []) = if is_ascii_space a then 1 else if is_space_two a b then 2 else 0
space_len (a ∷ b ∷ c ∷ t) =
    if is_ascii_space a
    then 1
    else if is_space_two a b
    then 2
    else if is_space_three a b c
    then 3
    else 0

-- The length of the white space character at the end, of the reversed text.
unfoldable pub space_len_reversed : Text → ℕ
unfolding is_ascii_space is_space_two is_space_three
space_len_reversed [] = 0
space_len_reversed (a ∷ []) = if is_ascii_space a then 1 else 0
space_len_reversed (b ∷ a ∷ []) = if is_ascii_space b then 1 else if is_space_two a b then 2 else 0
space_len_reversed (c ∷ b ∷ a ∷ t) =
    if is_ascii_space c
    then 1
    else if is_space_two b c
    then 2
    else if is_space_three a b c
    then 3
    else 0

-- Drops what a measure finds at the front, as often as it finds something.
unfoldable pub trim_while : (Text → ℕ) → ℕ → Text → Text
trim_while measure zero t = t
trim_while measure (suc fuel) t =
    let rest = trim_while measure fuel (drop (measure t) t) in if measure t == 0 then t else rest

-- strings.TrimSpace. Each round drops a byte at least, so the length is fuel enough.
unfoldable pub trim_space : Text → Text
unfolding trim_while space_len space_len_reversed
trim_space t =
    let front = trim_while space_len (length t) t in
    reverse (trim_while space_len_reversed (length front) (reverse front))

-- The rounds are enough: what is left has no white space at that end.
trim_while_enough :
    (measure : Text → ℕ) (fuel : ℕ) (t : Text)
    → measure [] ≡ 0
    → length t ≤ fuel
    → measure (trim_while measure fuel t) ≡ 0
unfolding trim_while
trim_while_enough measure zero [] e h = e
trim_while_enough measure zero (c ∷ t) e h = absurd (omega arith)
trim_while_enough measure (suc fuel) t e h = elim (Bool-cases (measure t == 0)) [
  | inl stop ↦ rw stop (ground arith)
  | inr more ↦ rw more (
      trim_while_enough measure fuel (drop (measure t) t) e
        (omega (arith, length-drop (measure t) t, not_zero (measure t) more)))
]

-- A trimmed text has no white space at its end.
pub space_len_reversed-trim_space : (t : Text) → space_len_reversed (reverse (trim_space t)) ≡ 0
unfolding trim_space
space_len_reversed-trim_space t =
    let front = trim_while space_len (length t) t in
    rw (reverse-reverse (trim_while space_len_reversed (length front) (reverse front))) (
      trim_while_enough space_len_reversed (length front) (reverse front) refl
        (omega (arith, length-reverse front)))

trim_while_none :
    (measure : Text → ℕ) (fuel : ℕ) (t : Text) → measure t ≡ 0 → trim_while measure fuel t ≡ t
unfolding trim_while
trim_while_none measure zero t h = refl
trim_while_none measure (suc fuel) t h = ground arith

-- A text with no white space at its ends is left as it is.
pub trim_space_none :
    (t : Text) → space_len t ≡ 0 → space_len_reversed (reverse t) ≡ 0 → trim_space t ≡ t
unfolding trim_space
trim_space_none t front back = rw (
  trim_while_none space_len (length t) t front,
  trim_while_none space_len_reversed (length t) (reverse t) back,
  reverse-reverse t,
)
