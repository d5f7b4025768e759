-- ===== src/Os/Paths.antt =====
-- filepath.Join and filepath.Rel, for an absolute base directory.
use mydrive.Base.{
  ℕ, ◌≡◌, ◌≢◌, refl, sym, ap, ◌∙◌, Option, none, some, List, [], ◌∷◌, ◌++◌, false, Text, ◌==◌,
  nat_eq, text_eq, if◌then◌else◌, arith, All, reverse, Bool-cases, Option-cases, append_assoc,
  reverse-append, reverse-cons, inl, inr,
}
use mydrive.Os.{FilePath, path_eq}

abbrev pub slash : ℕ
slash = 47

-- A byte before the parts of a text.
abbrev onto_first : ℕ → List Text → List Text
onto_first b [] = (b ∷ []) ∷ []
onto_first b (part ∷ parts) = (b ∷ part) ∷ parts

-- The parts of a path between its slashes.
unfoldable pub split : Text → List Text
split [] = [] ∷ []
split (b ∷ t) = let parts = split t in if b == slash then [] ∷ parts else onto_first b parts

abbrev pub dot : Text
dot = 46 ∷ []

abbrev pub dot_dot : Text
dot_dot = 46 ∷ 46 ∷ []

abbrev parent : FilePath → FilePath
parent [] = []
parent (name ∷ p) = p

-- One part below a clean path: filepath.Clean drops an empty one and `.`, and goes up by `..`, which
-- stays at the root.
unfoldable pub enter : FilePath → Text → FilePath
enter p part =
    if part == []
    then p
    else if part == dot
    then p
    else if part == dot_dot
    then parent p
    else part ∷ p

unfoldable pub enter_all : FilePath → List Text → FilePath
enter_all p [] = p
enter_all p (part ∷ parts) = enter_all (enter p part) parts

-- filepath.Join(base, rel)
unfoldable pub join : FilePath → Text → FilePath
join base rel = enter_all base (split rel)

-- The names that lead from a directory down to a path, if it is that directory or below it.
unfoldable pub below : FilePath → FilePath → Option (List Text)
below base [] = if [] == base then some [] else none
below base (name ∷ p) =
    let up : Option (List Text) = elim (below base p) [
      | none ↦ none
      | some names ↦ some (names ++ name ∷ [])
    ] in
    if (name ∷ p) == base then some [] else up

-- Names with slashes between them.
abbrev pub with_slashes : List Text → Text
with_slashes [] = []
with_slashes (name ∷ []) = name
with_slashes (name ∷ other ∷ names) = name ++ slash ∷ with_slashes (other ∷ names)

-- filepath.Rel(base, p), for a path that is not above the base or beside it
unfoldable pub rel : FilePath → FilePath → Text
rel base p = elim (below base p) [
  | none ↦ []
  | some [] ↦ dot
  | some (n ∷ ns) ↦ with_slashes (n ∷ ns)
]

-- The names that a directory can hold.
pub record IsName (n : Text) : Type 0 where
  pub one_part : All (λ b. (b == slash) ≡ false) n
  pub not_empty : n ≢ []
  pub not_dot : n ≢ dot
  pub not_dot_dot : n ≢ dot_dot

-- A name and what stands behind a slash are cut there.
split-append :
    (n t : Text) → All (λ b. (b == slash) ≡ false) n → split (n ++ slash ∷ t) ≡ n ∷ split t
unfolding split
split-append [] t h = refl
split-append (b ∷ n) t h = rw (h.0, split-append n t h.1)

split-one : (n : Text) → All (λ b. (b == slash) ≡ false) n → split n ≡ n ∷ []
unfolding split
split-one [] h = refl
split-one (b ∷ n) h = rw (h.0, split-one n h.1)

pub split-with_slashes :
    (n : Text) (ns : List Text) → All IsName (n ∷ ns) → split (with_slashes (n ∷ ns)) ≡ n ∷ ns
split-with_slashes n [] h = split-one n h.0.one_part
split-with_slashes n (m ∷ ns) h =
    split-append n (with_slashes (m ∷ ns)) h.0.one_part
    ∙ ap (λ l. n ∷ l) (split-with_slashes m ns h.1)

enter-IsName : (p : FilePath) (n : Text) → IsName n → enter p n ≡ n ∷ p
unfolding enter
enter-IsName p n h = ground (
  arith,
  h.not_empty,
  h.not_dot,
  h.not_dot_dot,
  text_eq.beq_iff n [],
  text_eq.beq_iff n dot,
  text_eq.beq_iff n dot_dot,
)

enter_all-IsName :
    (p : FilePath) (ns : List Text) → All IsName ns → enter_all p ns ≡ reverse ns ++ p
unfolding enter_all
enter_all-IsName p [] h = refl
enter_all-IsName p (n ∷ ns) h =
    ap (λ q. enter_all q ns) (enter-IsName p n h.0)
    ∙ enter_all-IsName (n ∷ p) ns h.1
    ∙ sym (append_assoc (reverse ns) (n ∷ []) p)
    ∙ ap (λ l. l ++ p) (sym (reverse-cons n ns))

-- Joining the directory with the names of a path below it gives the path.
pub join-with_slashes :
    (base : FilePath) (n : Text) (ns : List Text)
    → All IsName (n ∷ ns)
    → join base (with_slashes (n ∷ ns)) ≡ reverse (n ∷ ns) ++ base
unfolding join
join-with_slashes base n ns h =
    ap (enter_all base) (split-with_slashes n ns h) ∙ enter_all-IsName base (n ∷ ns) h

-- What is read off a path below a directory leads back to it.
below-reverse :
    (base p : FilePath) (names : List Text) → below base p ≡ some names → reverse names ++ base ≡ p
unfolding below
below-reverse base [] names h = elim (Bool-cases ([] == base)) [
  | inl e ↦
      let names_eq : names ≡ [] = ground arith in rw names_eq (sym ((path_eq.beq_iff [] base).0 e))
  | inr e ↦ absurd (ground arith)
]
below-reverse base (n ∷ p) names h = elim (Bool-cases ((n ∷ p) == base)) [
  | inl e ↦
      let names_eq : names ≡ [] = ground arith in
      rw names_eq (sym ((path_eq.beq_iff (n ∷ p) base).0 e))
  | inr e ↦ elim (Option-cases (below base p)) [
    | inl above ↦ absurd (ground arith)
    | inr (ns, found) ↦
        let names_eq : names ≡ ns ++ n ∷ [] = ground arith in
        rw (names_eq, reverse-append ns (n ∷ [])) (ap (λ q. n ∷ q) (below-reverse base p ns found))
  ]
]

-- The path of an entry leads back to what it was made for: joining the directory with the relative
-- path of something below it gives its path, if its names can stand in a directory.
pub join-rel :
    (base p : FilePath) (n : Text) (ns : List Text)
    → below base p ≡ some (n ∷ ns)
    → All IsName (n ∷ ns)
    → join base (rel base p) ≡ p
unfolding rel
join-rel base p n ns found h =
    let shown : rel base p ≡ with_slashes (n ∷ ns) = ground arith in
    ap (join base) shown ∙ join-with_slashes base n ns h ∙ below-reverse base p (n ∷ ns) found
