-- ===== src/Store/Atomic.antt =====
-- The atomic write of crates/anago/src/fsutil.rs: the file changes as a whole or not at all.
use anago.Prelude.{◌≡◌, ◌⊎◌, Bool, true, false, some, none, arith}
use anago.Store.{
  whole, Disk, Calls, or_remove, replace_with, write_temp, publish, write_private, lock,
}

-- A write that succeeds leaves the whole value in the file and nothing beside it; one that fails, in
-- whatever call, leaves the file as it was.
pub write_private-cases :
    {A : Type 0} (calls : Calls) (d : Disk A) (a : A)
    → (write_private calls d a ≡ (record { file = whole a; temp = none }, true))
      ⊎ (((write_private calls d a).1 ≡ false) × ((write_private calls d a).0.file ≡ d.file))
unfolding write_private replace_with write_temp publish or_remove
write_private-cases calls d a = ground arith

pub lock-some :
    {A : Type 0} (held : Bool) (d : Disk A) {a : A} → lock held d ≡ some a → d.file ≡ whole a
lock-some held d h = ground arith
