-- ===== src/Fs/Keeps/Names.antt =====
-- The handlers for names keep what the interface keeps.
use pagealignfs.Prelude.{ℕ}
use pagealignfs.Prelude.Bytes.{Text}
use pagealignfs.World.{World}
use pagealignfs.Effect.Keeps.{Keeps}
use pagealignfs.Syscalls.Keeps.{syscall_rules}
use pagealignfs.Syscalls.Keeps.Tree.{tree_keeps}
use pagealignfs.Fs.Keeps.{StateKeeps, resource_keeps}
use pagealignfs.Fs.Keeps.Entries.{entry_keeps}
use pagealignfs.Fs.Names.{read_link, mknod, mkdir, unlink, rmdir, symlink, rename, link}

module _ {P : World → Type 0} (k : StateKeeps P) where
  pub read_link-Keeps : (ino : ℕ) → Keeps P (read_link ino)
  unfolding read_link
  read_link-Keeps ino =
      search (resource_keeps, entry_keeps, tree_keeps, syscall_rules, k.calls, k.at_send) depth 12

  pub mknod-Keeps :
      (parent : ℕ) (name : Text) (mode rdev : ℕ) → Keeps P (mknod parent name mode rdev)
  unfolding mknod
  mknod-Keeps parent name mode rdev =
      search (resource_keeps, entry_keeps, tree_keeps, syscall_rules, k.calls, k.at_send) depth 12

  pub mkdir-Keeps : (parent : ℕ) (name : Text) (mode : ℕ) → Keeps P (mkdir parent name mode)
  unfolding mkdir
  mkdir-Keeps parent name mode =
      search (resource_keeps, entry_keeps, tree_keeps, syscall_rules, k.calls, k.at_send) depth 12

  pub unlink-Keeps : (ino : ℕ) (name : Text) → Keeps P (unlink ino name)
  unfolding unlink
  unlink-Keeps ino name =
      search (resource_keeps, entry_keeps, tree_keeps, syscall_rules, k.calls, k.at_send) depth 12

  pub rmdir-Keeps : (ino : ℕ) (name : Text) → Keeps P (rmdir ino name)
  unfolding rmdir
  rmdir-Keeps ino name =
      search (resource_keeps, entry_keeps, tree_keeps, syscall_rules, k.calls, k.at_send) depth 12

  pub symlink-Keeps : (link : Text) (parent : ℕ) (name : Text) → Keeps P (symlink link parent name)
  unfolding symlink
  symlink-Keeps link parent name =
      search (resource_keeps, entry_keeps, tree_keeps, syscall_rules, k.calls, k.at_send) depth 12

  pub rename-Keeps :
      (parent : ℕ) (name : Text) (newparent : ℕ) (newname : Text) (flags : ℕ)
      → Keeps P (rename parent name newparent newname flags)
  unfolding rename
  rename-Keeps parent name newparent newname flags =
      search (resource_keeps, entry_keeps, tree_keeps, syscall_rules, k.calls, k.at_send) depth 12

  pub link-Keeps : (ino : ℕ) (newparent : ℕ) (newname : Text) → Keeps P (link ino newparent newname)
  unfolding link
  link-Keeps ino newparent newname =
      search (resource_keeps, entry_keeps, tree_keeps, syscall_rules, k.calls, k.at_send) depth 12

pub ruleset name_keeps = (
  read_link-Keeps, mknod-Keeps, mkdir-Keeps, unlink-Keeps, rmdir-Keeps, symlink-Keeps, rename-Keeps,
  link-Keeps,
)
