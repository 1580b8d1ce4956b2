-- ===== src/Store.antt =====
-- crates/anago/src/store.rs, and the atomic write of crates/anago/src/fsutil.rs that its commit rests
-- on: each call of the operating system may fail.
pub mod Atomic
use anago.Prelude.{ℕ, ◌≡◌, Bool, true, false, not, Option, none, some, if◌then◌else◌}

-- What a file holds: a whole value, or less than was to be written.
pub data Content (A : Type 0) : Type 0 where
  whole : A → Content A
  part : Content A

-- The file and its sibling `.tmp`, the two names that a write touches.
pub record Disk (A : Type 0) : Type 0 where
  pub file : Content A
  pub temp : Option (Content A)

-- Which calls succeed: the removal of a sibling that a killed run left, the exclusive create, its
-- mode, the write, the flush, the rename, and the removal after a failure.
pub record Calls : Type 0 where
  pub clear : Bool
  pub create : Bool
  pub mode : Bool
  pub write : Bool
  pub sync : Bool
  pub rename : Bool
  pub remove : Bool

module _ {A : Type 0} where
  -- `let _ = fs::remove_file(&tmp)`
  abbrev pub remove_temp : Calls → Disk A → Disk A
  remove_temp calls d = if calls.remove then record d { temp = none } else d

  -- `or_remove`: a step that failed undoes the create.
  unfoldable pub or_remove : Calls → Bool → Disk A → Disk A × Bool
  or_remove calls good d = if good then (d, true) else (remove_temp calls d, false)

  -- `replace_with` and `create_new_with`: the sibling is created empty.
  unfoldable pub replace_with : Calls → Disk A → Disk A × Bool
  replace_with calls d =
      if not calls.clear
      then (d, false)
      else if not calls.create
      then (record d { temp = none }, false)
      else or_remove calls calls.mode (record d { temp = some part })

  -- `write_all`, then `sync_all`; a write that fails leaves a part.
  unfoldable pub write_temp : Calls → A → Disk A → Disk A × Bool
  write_temp calls a d =
      if calls.write
      then or_remove calls calls.sync (record d { temp = some (whole a) })
      else or_remove calls false d

  -- `fs::rename`: the file is what the sibling was.
  unfoldable pub publish : Calls → Disk A → Disk A × Bool
  publish calls d =
      if calls.rename
      then (elim d.temp [ none ↦ (d, false) | some c ↦ (record { file = c; temp = none }, true) ])
      else (remove_temp calls d, false)

  -- `?`: the next step, if the one before succeeded.
  abbrev pub and_then : Disk A × Bool → (Disk A → Disk A × Bool) → Disk A × Bool
  and_then (d, true) next = next d
  and_then (d, false) next = (d, false)

  -- `write_private_owned` without an owner, as `write_private` calls it.
  unfoldable pub write_private : Calls → Disk A → A → Disk A × Bool
  write_private calls d a =
      and_then (and_then (replace_with calls d) (write_temp calls a)) (publish calls)

  -- `Store::read`, what parses of the file; and `Guard::commit`.
  abbrev pub read : Disk A → Option A
  read d = elim d.file [ whole a ↦ some a | part ↦ none ]

  abbrev pub commit : Calls → Disk A → A → Disk A × Bool
  commit = write_private

  -- `Store::lock`: the lock is taken and the state is read.
  abbrev pub lock : Bool → Disk A → Option A
  lock held d = if held then read d else none
