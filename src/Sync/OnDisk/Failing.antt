-- ===== src/Sync/OnDisk/Failing.antt =====
-- ApplyChanges of sync/engine.go, when an operation fails.
use mydrive.Base.{
  ◌≡◌, sym, ap, ◌∙◌, Option, none, some, List, [], ◌∷◌, ◌++◌, Text, Result, ok, err, Result-cases,
  inl, inr, arith,
}
use mydrive.Protocol.Message.{SyncOp}
use mydrive.Os.{FilePath, Disk, OsError, nil_pointer}
use mydrive.Os.Laws.{bind_ok, bind_err, with_result}
use mydrive.Sync.Engine.{Engine}
use mydrive.Sync.OnDisk.{root_of}
use mydrive.Sync.OnDisk.Apply.{apply_op, apply_ops, apply_changes}

apply_ops-append :
    (base : FilePath) (ops : List (Option SyncOp)) (op : SyncOp) (rest : List (Option SyncOp))
    (d d₁ d₂ : Disk) (x : OsError)
    → apply_ops base ops d ≡ (ok tt, d₁)
    → apply_op base op d₁ ≡ (err x, d₂)
    → apply_ops base (ops ++ some op ∷ rest) d ≡ (err x, d₂)
unfolding apply_ops
apply_ops-append base [] op rest d d₁ d₂ x h k =
    bind_err (apply_op base op) (apply_ops base rest) d d₂ x
      (ap (apply_op base op) (ap (λ o. o.1) h) ∙ k)
apply_ops-append base (none ∷ ops) op rest d d₁ d₂ x h k =
    let stopped : ◌≡◌ {A = Result OsError (Unit {0})} (err nil_pointer) (ok tt) = ap (λ o. o.0) h in
    absurd (ground arith)
apply_ops-append base (some first ∷ ops) op rest d d₁ d₂ x h k =
    let d' = (apply_op base first d).1 in
    elim (Result-cases (apply_op base first d).0) [
      | inl (u, e) ↦
          let done = with_result (apply_op base first d) (ok tt) e in
          let later = sym (bind_ok (apply_op base first) (apply_ops base ops) d d' done) ∙ h in
          bind_ok (apply_op base first) (apply_ops base (ops ++ some op ∷ rest)) d d' done
          ∙ apply_ops-append base ops op rest d' d₁ d₂ x later k
      | inr (y, e) ↦
          let failed =
            sym (
              bind_err (apply_op base first) (apply_ops base ops) d d' y
                (with_result (apply_op base first d) (err y) e))
            ∙ h in
          let result : ◌≡◌ {A = Result OsError (Unit {0})} (err y) (ok tt) = ap (λ o. o.0) failed in
          absurd (ground arith)
    ]

module _ (sha256 : Text → Text) where
  -- The operations before the first one that fails are all made, and none behind it: ApplyChanges
  -- ends with its error, the disk is as it left it, and there is no new scan, so the engine's tree
  -- stays what it was before any of them.
  pub apply_changes-append :
      (e : Engine) (ops : List (Option SyncOp)) (op : SyncOp) (rest : List (Option SyncOp))
      (d d₁ d₂ : Disk) (x : OsError)
      → apply_ops (root_of e) ops d ≡ (ok tt, d₁)
      → apply_op (root_of e) op d₁ ≡ (err x, d₂)
      → apply_changes sha256 (ops ++ some op ∷ rest) e d ≡ (err x, e, d₂)
  unfolding apply_changes
  apply_changes-append e ops op rest d d₁ d₂ x h k =
      let failed = apply_ops-append (root_of e) ops op rest d d₁ d₂ x h k in
      rw (apply_changes, ap (λ o. o.0) failed) (ap (λ o. (err x, e, o.1)) failed)
