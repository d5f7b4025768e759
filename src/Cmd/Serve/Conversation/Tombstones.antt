-- ===== src/Cmd/Serve/Conversation/Tombstones.antt =====
-- What becomes of the tombstones, in memory and on the disk, when handleClient of cmd/server/main.go starts a
-- session.
use mydrive.Base.{
  ℕ, ◌≡◌, ◌⊎◌, ◌≢◌, refl, sym, ap, ◌∙◌, Bool, [], false, Text, Option-cases, Result-cases, inl, inr,
  arith, nat_eq,
}
use mydrive.Base.Dict
use mydrive.Base.Dict.{Dict}
use mydrive.Netlayer.Server.{ClientSession}
use mydrive.Protocol.Json.{Codec}
use mydrive.Os.{Disk}
use mydrive.Os.Files.{has_below}
use mydrive.Os.Paths.{join}
use mydrive.Utils.Fs.{walk_directory}
use mydrive.Utils.Fs.Kept.{Reads-walk_directory}
use mydrive.Sync.Engine.{Engine, tombstone_file, scan_local, is_tombstoned}
use mydrive.Sync.OnDisk.{root_of, path_in, scan, load_engine, clear_persisted}
use mydrive.Sync.OnDisk.Restart.{is_tombstoned-clear_persisted}
use mydrive.Cmd.Session.{Outcome, synced, converse}
use mydrive.Cmd.Session.Tombstones.{unless_synced, converse-KeepsTombstones}
use mydrive.Cmd.Serve.{World, rescan}
use mydrive.Cmd.Serve.Conversation.{content_at, settled, start_client}

-- A scan, whether it succeeds or not, leaves the disk and the base directory.
scan-base_dir :
    (sha256 : Text → Text) (e : Engine) (d : Disk)
    → ((scan sha256 e d).2 ≡ d) × ((scan sha256 e d).1.base_dir ≡ e.base_dir)
unfolding scan scan_local
scan-base_dir sha256 e d =
    let kept = Reads-walk_directory sha256 (root_of e) d in
    elim (Result-cases (walk_directory sha256 (root_of e) d).0) [
      | inl (found, k) ↦ rw (scan, k) (kept, refl)
      | inr (x, k) ↦ rw (scan, k) (kept, refl)
    ]

settled-cases :
    (o : Outcome)
    → (o ≡ synced)
      ⊎ (o ≢ synced)
        × ((t : Dict Text Bool) → unless_synced o t ≡ t)
        × ((id : ℕ) (s : ClientSession) (e : Engine) (w : World)
            → (settled id (o, s, e) w).disk ≡ w.disk)
settled-cases synced = inl refl
settled-cases o = inr (λ e. absurd (ground arith), λ t. refl, λ id s e w. refl)

module _ (j : Codec) (sha256 : Text → Text) where
  -- However the start of a session goes: if it ends with the initial sync complete, then the server
  -- has no tombstones any more, neither in memory nor after a restart from its disk. Else the disk is
  -- as it was, and the tombstones are those that the scan at the beginning leaves. Below the path of
  -- the tombstone file nothing stands.
  pub start_client-KeepsTombstones :
      (id : ℕ) (w : World)
      → has_below (path_in w.engine tombstone_file) w.disk.nodes ≡ false
      → let (o, w') = start_client j sha256 id w in
        ((o ≡ synced)
          × (w'.engine.tombstones ≡ [])
          × ((path : Text) → is_tombstoned (load_engine w.engine.base_dir w'.disk) path ≡ false))
        ⊎ ((o ≢ synced)
            × (w'.disk ≡ w.disk)
            × (w'.engine.tombstones ≡ (scan sha256 w.engine w.disk).1.tombstones))
  unfolding start_client
  start_client-KeepsTombstones id w h = elim (Option-cases (Dict.get w.server.clients id)) [
    | inl e ↦
        rw (start_client, e)
          (inr (λ k. absurd (ground arith), (scan-base_dir sha256 w.engine w.disk).0, refl))
    | inr (session, e) ↦
        let w₁ = rescan sha256 w in
        let talk = converse j (content_at w₁) session w₁.engine in
        let (disk, base) = scan-base_dir sha256 w.engine w.disk in
        let kept = converse-KeepsTombstones j (content_at w₁) session w₁.engine in
        let below : has_below (path_in w₁.engine tombstone_file) w₁.disk.nodes ≡ false =
          ap (λ b. has_below (join (join [] b) tombstone_file) w₁.disk.nodes) base
          ∙ ap (λ d. has_below (path_in w.engine tombstone_file) d.nodes) disk
          ∙ h in
        elim (settled-cases talk.0) [
          | inl k ↦
              rw (start_client, e)
                (inl (
                  k,
                  kept ∙ ap (λ o. unless_synced o w₁.engine.tombstones) k,
                  λ path.
                      ap
                        (λ o.
                          is_tombstoned
                            (load_engine w.engine.base_dir (settled id (o, talk.1, talk.2) w₁).disk)
                            path)
                        k
                      ∙ ap
                          (λ b.
                            is_tombstoned (load_engine b (clear_persisted w₁.engine w₁.disk).1)
                              path)
                          (sym base)
                      ∙ is_tombstoned-clear_persisted w₁.engine w₁.disk path below,
                ))
          | inr (apart, same, stays) ↦
              rw (start_client, e)
                (inr (apart, stays id talk.1 talk.2 w₁ ∙ disk, kept ∙ same w₁.engine.tombstones))
        ]
  ]
