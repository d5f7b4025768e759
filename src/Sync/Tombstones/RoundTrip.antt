-- ===== src/Sync/Tombstones/RoundTrip.antt =====
-- sync/engine.go: what SaveTombstones writes, NewEngine reads back.
use mydrive.Base.{
  ℕ, ◌+◌, ◌*◌, ◌≡◌, ◌<◌, refl, sym, ◌∙◌, ap, ◌⊎◌, inl, inr, List, [], ◌∷◌, ◌++◌, Bool, true, false,
  not, ◌&&◌, ◌||◌, Text, length, reverse, arith, ◌==◌, text_eq, nat_eq, text_beq, Bool-cases, All,
  reverse-append, append-nil, reverse-reverse, append_assoc,
}
use mydrive.Base.Dict
use mydrive.Base.Dict.{Dict, get-insert, get-insert_all, elem-keys}
use mathlib.Core.Path.{ap₂}
use mydrive.Protocol.Message.{FileEntry}
use mydrive.Sync.Engine.Scan.{on_disk, is_tombstoned-scan_local}
use mydrive.Sync.Engine.{scan_local, Engine, is_tombstoned, fresh_engine}
use mydrive.Sync.Tombstones.Lines.{
  scan_lines, lines, fitting, map_drop_cr, drop_cr, drop_cr_reversed, scan_lines-append,
}
use mydrive.Sync.Tombstones.Trim.{trim_space, space_len, space_len_reversed, trim_space_none}
use mydrive.Sync.Tombstones.{
  lines_of, save_tombstones, load_trimmed, load_lines, load_tombstones, new_engine, has_prefix,
}

-- The paths that a line of the file can hold: no newline, no white space at the end, and short
-- enough for the scanner's buffer.
pub record IsClean (p : Text) : Type 0 where
  pub one_line : All (λ c. (c == 10) ≡ false) p
  pub no_trailing_space : space_len_reversed (reverse p) ≡ 0
  pub fits : length p + 2 < 64 * 1024

-- A mark of a letter and a colon.
abbrev mark : ℕ → Text
mark c = c ∷ b':' ∷ []

-- The mark does not make white space of what stands behind it.
space_len_reversed-mark :
    (c : ℕ) (r : Text)
    → c ≡ b'D' ⊎ c ≡ b'K'
    → space_len_reversed r ≡ 0
    → space_len_reversed (r ++ b':' ∷ c ∷ []) ≡ 0
unfolding space_len_reversed
space_len_reversed-mark c [] k h = ground arith
space_len_reversed-mark c (x ∷ []) k h = ground arith
space_len_reversed-mark c (x ∷ y ∷ []) k h = ground arith
space_len_reversed-mark c (x ∷ y ∷ z ∷ r) k h = h

space_len-mark : (c : ℕ) (p : Text) → c ≡ b'D' ⊎ c ≡ b'K' → space_len (mark c ++ p) ≡ 0
unfolding space_len
space_len-mark c [] k = ground arith
space_len-mark c (x ∷ p) k = ground arith

drop_cr_reversed_none : (r : Text) → space_len_reversed r ≡ 0 → drop_cr_reversed r ≡ r
unfolding space_len_reversed
drop_cr_reversed_none [] h = refl
drop_cr_reversed_none (x ∷ []) h = ground arith
drop_cr_reversed_none (x ∷ y ∷ []) h = ground arith
drop_cr_reversed_none (x ∷ y ∷ z ∷ r) h = ground arith

drop_cr_none : (t : Text) → space_len_reversed (reverse t) ≡ 0 → drop_cr t ≡ t
unfolding drop_cr
drop_cr_none t h = rw (drop_cr_reversed_none (reverse t) h) (reverse-reverse t)

-- A marked path is one line of the file, which the scanner and the trimming leave as it is.
module _ (c : ℕ) (p : Text) (k : c ≡ b'D' ⊎ c ≡ b'K') (clean : IsClean p) where
  space_len_reversed-marked : space_len_reversed (reverse (mark c ++ p)) ≡ 0
  space_len_reversed-marked =
      rw (reverse-append (mark c) p)
        (space_len_reversed-mark c (reverse p) k clean.no_trailing_space)

  trim_space-marked : trim_space (mark c ++ p) ≡ mark c ++ p
  trim_space-marked = trim_space_none (mark c ++ p) (space_len-mark c p k) space_len_reversed-marked

  scan_lines-marked :
      (t : Text) → scan_lines ((mark c ++ p) ++ 10 ∷ t) ≡ (mark c ++ p) ∷ scan_lines t
  scan_lines-marked t =
      scan_lines-append (mark c ++ p) t (ground arith, (refl, clean.one_line))
        (omega (arith, clean.fits)) (drop_cr_none (mark c ++ p) space_len_reversed-marked)

-- The lines of a list of deleted, or of known, paths are read back one after the other.
add_deleted : List Text → Engine → Engine
add_deleted ps e = record e {
  tombstones = Dict.insert_all e.tombstones ps true;
  previous_paths = Dict.insert_all e.previous_paths ps true;
}

add_known : List Text → Engine → Engine
add_known ps e = record e { previous_paths = Dict.insert_all e.previous_paths ps true }

load_trimmed-deleted :
    (p : Text) (e : Engine) → load_trimmed (mark b'D' ++ p) e ≡ add_deleted (p ∷ []) e
unfolding load_trimmed has_prefix add_deleted Dict.insert_all text_beq
load_trimmed-deleted p e = refl

load_trimmed-known :
    (p : Text) (e : Engine) → load_trimmed (mark b'K' ++ p) e ≡ add_known (p ∷ []) e
unfolding load_trimmed has_prefix add_known Dict.insert_all text_beq
load_trimmed-known p e = refl

load_lines-deleted :
    (ps : List Text) (t : Text) (e : Engine)
    → All IsClean ps
    → load_lines (scan_lines (lines_of (mark b'D') ps ++ t)) e
      ≡ load_lines (scan_lines t) (add_deleted ps e)
unfolding lines_of load_lines add_deleted Dict.insert_all
load_lines-deleted [] t e h = refl
load_lines-deleted (p ∷ ps) t e h =
    rw
      (
        append_assoc (mark b'D' ++ p) (10 ∷ lines_of (mark b'D') ps) t,
        scan_lines-marked b'D' p (inl refl) h.0 (lines_of (mark b'D') ps ++ t),
      )
      (ap (λ l. load_lines (scan_lines (lines_of (mark b'D') ps ++ t)) (load_trimmed l e))
          (trim_space-marked b'D' p (inl refl) h.0)
        ∙ ap (load_lines (scan_lines (lines_of (mark b'D') ps ++ t))) (load_trimmed-deleted p e)
        ∙ load_lines-deleted ps t (add_deleted (p ∷ []) e) h.1)

load_lines-known :
    (ps : List Text) (t : Text) (e : Engine)
    → All IsClean ps
    → load_lines (scan_lines (lines_of (mark b'K') ps ++ t)) e
      ≡ load_lines (scan_lines t) (add_known ps e)
unfolding lines_of load_lines add_known Dict.insert_all
load_lines-known [] t e h = refl
load_lines-known (p ∷ ps) t e h =
    rw
      (
        append_assoc (mark b'K' ++ p) (10 ∷ lines_of (mark b'K') ps) t,
        scan_lines-marked b'K' p (inr refl) h.0 (lines_of (mark b'K') ps ++ t),
      )
      (ap (λ l. load_lines (scan_lines (lines_of (mark b'K') ps ++ t)) (load_trimmed l e))
          (trim_space-marked b'K' p (inr refl) h.0)
        ∙ ap (load_lines (scan_lines (lines_of (mark b'K') ps ++ t))) (load_trimmed-known p e)
        ∙ load_lines-known ps t (add_known (p ∷ []) e) h.1)

load_lines-nil : (e : Engine) → load_lines (scan_lines []) e ≡ e
unfolding load_lines scan_lines map_drop_cr fitting lines
load_lines-nil e = refl

keys-nil : (m : Dict Text Bool) → (length m == 0) ≡ true → Dict.keys m ≡ []
unfolding Dict.keys
keys-nil [] h = refl
keys-nil ((k, b) ∷ m) h = absurd (ground arith)

-- The engine after loading is the given one with the saved keys.
load_tombstones-save_tombstones :
    (e d : Engine)
    → All IsClean (Dict.keys e.tombstones)
    → All IsClean (Dict.keys e.previous_paths)
    → load_tombstones (save_tombstones e) d
      ≡ add_known (Dict.keys e.previous_paths) (add_deleted (Dict.keys e.tombstones) d)
unfolding load_tombstones save_tombstones
load_tombstones-save_tombstones e d hd hk =
    let ds = Dict.keys e.tombstones in
    let ks = Dict.keys e.previous_paths in
    elim (Bool-cases ((length e.tombstones == 0) && (length e.previous_paths == 0))) [
      | inl empty ↦
          rw (empty, keys-nil e.tombstones (ground arith), keys-nil e.previous_paths (ground arith))
            (unfold add_known add_deleted Dict.insert_all in refl)
      | inr full ↦ rw full (
          load_lines-deleted ds (lines_of (mark b'K') ks) d hd
          ∙ ap (λ t. load_lines (scan_lines t) (add_deleted ds d))
              (sym (append-nil (lines_of (mark b'K') ks)))
          ∙ load_lines-known ks [] (add_deleted ds d) hk
          ∙ load_lines-nil (add_known ks (add_deleted ds d)))
    ]

loaded-is_tombstoned :
    (base_dir : Text) (ds ks : List Text) (p : Text)
    → is_tombstoned (add_known ks (add_deleted ds (fresh_engine base_dir))) p ≡ Dict.elem ds p
unfolding is_tombstoned add_known add_deleted fresh_engine Dict.get
loaded-is_tombstoned base_dir ds ks p = ground (arith, get-insert_all {V = Bool} [] ds true p)

loaded-previous_paths :
    (base_dir : Text) (ds ks : List Text) (p : Text)
    → Dict.has (add_known ks (add_deleted ds (fresh_engine base_dir))).previous_paths p
      ≡ (Dict.elem ds p || Dict.elem ks p)
unfolding Dict.has add_known add_deleted fresh_engine Dict.get
loaded-previous_paths base_dir ds ks p = ground (
  arith,
  get-insert_all (Dict.insert_all [] ds true) ks true p,
  get-insert_all {V = Bool} [] ds true p,
)

-- An engine that is made from the file which another one saved has that one's tombstones, and
-- knows its known and its deleted paths. The paths have no newline, no white space at their end,
-- and fit into the scanner's buffer.
pub new_engine-save_tombstones :
    (base_dir : Text) (e : Engine) (p : Text)
    → All IsClean (Dict.keys e.tombstones)
    → All IsClean (Dict.keys e.previous_paths)
    → (is_tombstoned (new_engine base_dir (save_tombstones e)) p ≡ Dict.has e.tombstones p)
      × (Dict.has (new_engine base_dir (save_tombstones e)).previous_paths p
          ≡ (Dict.has e.tombstones p || Dict.has e.previous_paths p))
unfolding new_engine
new_engine-save_tombstones base_dir e p hd hk =
    let ds = Dict.keys e.tombstones in
    let ks = Dict.keys e.previous_paths in
    rw (load_tombstones-save_tombstones e (fresh_engine base_dir) hd hk) (
      loaded-is_tombstoned base_dir ds ks p ∙ elem-keys e.tombstones p,
      loaded-previous_paths base_dir ds ks p
          ∙ ap₂ ◌||◌ (elem-keys e.tombstones p) (elem-keys e.previous_paths p),
    )

-- After a restart the first scan finds the deletions from before it, and those made while the
-- program was not running: a path is tombstoned if it was so before, or if it was known then and
-- is not on the disk now, and in no other case. The paths have no newline, no white space at their
-- end, and fit into the scanner's buffer.
pub is_tombstoned-scan_local_restart :
    (base_dir : Text) (e : Engine) (found : List FileEntry) (p : Text)
    → All IsClean (Dict.keys e.tombstones)
    → All IsClean (Dict.keys e.previous_paths)
    → is_tombstoned (scan_local found (new_engine base_dir (save_tombstones e))) p
      ≡ (Dict.has e.tombstones p || (Dict.has e.previous_paths p && not (on_disk found p)))
is_tombstoned-scan_local_restart base_dir e found p hd hk =
    let (deleted, known) = new_engine-save_tombstones base_dir e p hd hk in
    rw (is_tombstoned-scan_local found (new_engine base_dir (save_tombstones e)) p, deleted, known)
      (ground arith)
