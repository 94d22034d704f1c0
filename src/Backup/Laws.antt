-- ===== src/Backup/Laws.antt =====
-- What becomes of a backup that was started.
use smartbackup_fs.Base.{
  ℕ, ◌+◌, ◌*◌, ◌≡◌, ◌≢◌, refl, sym, ap, ◌∙◌, Bool, true, false, Option, none, some, List, ◌∷◌, ◌==◌,
  failed, Bool-cases, inl, inr, arith,
}
use mathlib.Core.Path.{subst}
use smartbackup_fs.Backup.{
  BackupMeta, BackupHeader, HeaderFields, Backups, running, completed, failing, full, incremental,
  find_backup, update_at, update, new_meta, md_create_full_backup, md_create_incremental_backup,
  backup_begin, backup_end, restore_from, md_restore_filesystem, md_verify_backup, verify_at,
}

-- the newest entry has the id and no path, and is not the one at `a`
pub record HeadsBare (id a : ℕ) (s : Backups) : Type 0 where
  pub head : BackupMeta
  pub rest : List BackupMeta
  pub shape : s.backup_list ≡ (head ∷ rest)
  pub own : head.backup_id ≡ id
  pub bare : head.backup_path ≡ none
  pub apart : head.address ≢ a

find-bare :
    {a : ℕ} (id : ℕ) (s : Backups) (v : HeadsBare id a s)
    → find_backup id s.backup_list ≡ some v.head
unfolding find_backup
find-bare id s v =
    let own = v.own in
    let here : (v.head.backup_id == id) ≡ true = ground arith in
    ap (find_backup id) v.shape ∙ rw here refl

-- a write through the pointer to another entry
update-HeadsBare :
    (id a : ℕ) (f : BackupMeta → BackupMeta) (s : Backups)
    → HeadsBare id a s
    → HeadsBare id a (update a f s)
unfolding update_at
update-HeadsBare id a f s v =
    let apart = v.apart in
    let away : (v.head.address == a) ≡ false = ground arith in
    record {
      head = v.head;
      rest = update_at a f v.rest;
      shape = ap (update_at a f) v.shape ∙ rw away refl;
      own = v.own;
      bare = v.bare;
      apart = v.apart;
    }

same_list :
    (id a : ℕ) (s t : Backups) → HeadsBare id a s → t.backup_list ≡ s.backup_list → HeadsBare id a t
same_list id a s t v e = record {
  head = v.head;
  rest = v.rest;
  shape = e ∙ v.shape;
  own = v.own;
  bare = v.bare;
  apart = v.apart;
}

module _ (checksum : HeaderFields → ℕ) where
  -- what the backup thread of the entry at `a` may do to the state
  pub data ThreadStep (a : ℕ) : Backups → Backups → Type 0 where
    begins :
        (opened written : Bool) (now : ℕ) (m : BackupMeta) (s : Backups)
        → m.address ≡ a
        → ThreadStep a s (backup_begin checksum opened written now m s)
    ends :
        (written : Bool) (left : Option BackupHeader) (now : ℕ) (m : BackupMeta) (s : Backups)
        → m.address ≡ a
        → ThreadStep a s (backup_end checksum written left now m s)

  -- any number of its steps
  pub data Runs (a : ℕ) : Backups → Backups → Type 0 where
    rests : (s : Backups) → Runs a s s
    goes : {s t u : Backups} → ThreadStep a s t → Runs a t u → Runs a s u

  bare-fails :
      (id a : ℕ) (s : Backups)
      → HeadsBare id a s
      → (md_restore_filesystem checksum id s ≡ (failed, s)) × (md_verify_backup id s ≡ (failed, s))
  unfolding md_restore_filesystem md_verify_backup
  bare-fails id a s v =
      let found = find-bare id s v in
      (
        rw (found, md_restore_filesystem) (ap (λ p. restore_from checksum p s) v.bare),
        rw (found, md_verify_backup) (ap (λ p. verify_at v.head.address p s) v.bare),
      )

  begin-HeadsBare :
      (opened written : Bool) (now id : ℕ) (m : BackupMeta) (s : Backups)
      → HeadsBare id m.address s
      → HeadsBare id m.address (backup_begin checksum opened written now m s)
  unfolding backup_begin
  begin-HeadsBare opened written now id m s v =
      let stamp : BackupMeta → BackupMeta = λ x. record x {
        phase = running;
        start_time = now;
        backup_path = some (m.backup_id, now);
      } in
      let stamped = update-HeadsBare id m.address stamp s v in
      let stopped = update-HeadsBare id m.address (λ x. record x { phase = failing }) _ stamped in
      elim (Bool-cases opened) [
        | inr closed ↦ rw (closed, backup_begin) (same_list id m.address _ _ stopped refl)
        | inl made ↦ elim (Bool-cases written) [
          | inr short ↦ rw (made, backup_begin, short) (same_list id m.address _ _ stopped refl)
          | inl whole ↦ rw (made, backup_begin, whole) (same_list id m.address _ _ stamped refl)
        ]
      ]

  end-HeadsBare :
      (written : Bool) (left : Option BackupHeader) (now id : ℕ) (m : BackupMeta) (s : Backups)
      → HeadsBare id m.address s
      → HeadsBare id m.address (backup_end checksum written left now m s)
  unfolding backup_end
  end-HeadsBare written left now id m s v =
      let stopped = update-HeadsBare id m.address (λ x. record x { phase = failing }) s v in
      let stamp : BackupMeta → BackupMeta = λ x. record x {
        phase = completed;
        end_time = now;
        total_size = 1024 * 1024;
        file_count = 100;
      } in
      let stamped = update-HeadsBare id m.address stamp s v in
      elim (Bool-cases written) [
        | inr short ↦ rw (short, backup_end) (same_list id m.address _ _ stopped refl)
        | inl whole ↦ rw (whole, backup_end) (same_list id m.address _ _ stamped refl)
      ]

  step-HeadsBare :
      (id a : ℕ) {s t : Backups} → ThreadStep a s t → HeadsBare id a s → HeadsBare id a t
  step-HeadsBare id a (begins opened written now m s e) v =
      subst (λ k. HeadsBare id k (backup_begin checksum opened written now m s)) e
        (begin-HeadsBare opened written now id m s (subst (λ k. HeadsBare id k s) (sym e) v))
  step-HeadsBare id a (ends written left now m s e) v =
      subst (λ k. HeadsBare id k (backup_end checksum written left now m s)) e
        (end-HeadsBare written left now id m s (subst (λ k. HeadsBare id k s) (sym e) v))

  later-HeadsBare : (id a : ℕ) {s t : Backups} → Runs a s t → HeadsBare id a s → HeadsBare id a t
  later-HeadsBare id a (rests s) v = v
  later-HeadsBare id a (goes h r) v = later-HeadsBare id a r (step-HeadsBare id a h v)

create-HeadsBare :
    (base_id : ℕ) (base : BackupMeta) (s : Backups)
    → find_backup base_id s.backup_list ≡ some base
    → s.backup_in_progress ≡ false
    → let (id, s') = md_create_incremental_backup base_id true s in HeadsBare id s.next_address s'
unfolding md_create_incremental_backup md_create_full_backup
create-HeadsBare base_id base s found idle =
    rw (found, md_create_incremental_backup, idle, md_create_full_backup)
      (record {
        head = new_meta (s.next_address + 1) s.next_backup_id incremental (some base.address);
        rest = new_meta s.next_address s.next_backup_id full none ∷ s.backup_list;
        shape = refl;
        own = refl;
        bare = refl;
        apart = omega arith;
      })

-- A backup created as incremental, while no other is in progress, can never be restored or verified
-- under the id that is returned: whatever steps the backup thread of its full backup takes, the newest
-- entry of that id has no path.
pub md_create_incremental_backup-fails :
    (checksum : HeaderFields → ℕ) (base_id : ℕ) (base : BackupMeta) (s : Backups) (id : ℕ)
    (s' t : Backups)
    → find_backup base_id s.backup_list ≡ some base
    → s.backup_in_progress ≡ false
    → md_create_incremental_backup base_id true s ≡ (id, s')
    → Runs checksum s.next_address s' t
    → (md_restore_filesystem checksum id t ≡ (failed, t)) × (md_verify_backup id t ≡ (failed, t))
md_create_incremental_backup-fails checksum base_id base s id s' t found idle made r =
    let bare : HeadsBare id s.next_address s' =
      subst (λ p. HeadsBare p.0 s.next_address p.1) made
        (create-HeadsBare base_id base s found idle) in
    bare-fails checksum id s.next_address t (later-HeadsBare checksum id s.next_address r bare)
