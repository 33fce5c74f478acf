-- ===== src/Fs/Keeps/Attrs.antt =====
-- The handlers for attributes keep what the interface keeps.
use pagealignfs.Prelude.{ℕ}
use pagealignfs.System.Types.{Stat, ToSet, FileInfo}
use pagealignfs.World.{World}
use pagealignfs.Effect.Keeps.{Keeps}
use pagealignfs.Syscalls.Keeps.Files.{file_keeps}
use pagealignfs.Syscalls.Keeps.Tree.{tree_keeps}
use pagealignfs.Fs.Keeps.{StateKeeps, resource_keeps}
use pagealignfs.Prelude.Int.{ℤ}
use pagealignfs.Fs.Keeps.Entries.{entry_keeps}
use pagealignfs.Fs.Attrs.{
  get_attr, set_mode, set_owner, set_size, set_times, set_attr_on, set_attr, stat_fs, access_file,
}

module _ {P : World → Type 0} (k : StateKeeps P) where
  pub get_attr-Keeps : (ino : ℕ) → Keeps P (get_attr ino)
  unfolding get_attr
  get_attr-Keeps ino =
      search (resource_keeps, entry_keeps, file_keeps, tree_keeps, k.calls, k.at_send) depth 12

  pub set_mode-Keeps : (fd : ℤ) (attr : Stat) (to_set : ToSet) → Keeps P (set_mode fd attr to_set)
  unfolding set_mode
  set_mode-Keeps fd attr to_set =
      search (resource_keeps, entry_keeps, file_keeps, tree_keeps, k.calls, k.at_send) depth 12

  pub set_owner-Keeps : (fd : ℤ) (attr : Stat) (to_set : ToSet) → Keeps P (set_owner fd attr to_set)
  unfolding set_owner
  set_owner-Keeps fd attr to_set =
      search (resource_keeps, entry_keeps, file_keeps, tree_keeps, k.calls, k.at_send) depth 12

  pub set_size-Keeps : (fd : ℤ) (attr : Stat) (to_set : ToSet) → Keeps P (set_size fd attr to_set)
  unfolding set_size
  set_size-Keeps fd attr to_set =
      search (resource_keeps, entry_keeps, file_keeps, tree_keeps, k.calls, k.at_send) depth 12

  pub set_times-Keeps : (fd : ℤ) (attr : Stat) (to_set : ToSet) → Keeps P (set_times fd attr to_set)
  unfolding set_times
  set_times-Keeps fd attr to_set =
      search (resource_keeps, entry_keeps, file_keeps, tree_keeps, k.calls, k.at_send) depth 12

  pub set_attr_on-Keeps :
      (fd : ℤ) (ino : ℕ) (attr : Stat) (to_set : ToSet) → Keeps P (set_attr_on fd ino attr to_set)
  unfolding set_attr_on
  set_attr_on-Keeps fd ino attr to_set =
      search
        (
          resource_keeps, entry_keeps, file_keeps, tree_keeps, k.calls, k.at_send, set_mode-Keeps,
          set_owner-Keeps, set_size-Keeps, set_times-Keeps,
        )
        depth 12

  pub set_attr-Keeps :
      (ino : ℕ) (attr : Stat) (to_set : ToSet) (fi : FileInfo)
      → Keeps P (set_attr ino attr to_set fi)
  unfolding set_attr
  set_attr-Keeps ino attr to_set fi =
      search
        (resource_keeps, entry_keeps, file_keeps, tree_keeps, k.calls, k.at_send, set_attr_on-Keeps)
        depth 12

  pub stat_fs-Keeps : (ino : ℕ) → Keeps P (stat_fs ino)
  unfolding stat_fs
  stat_fs-Keeps ino =
      search (resource_keeps, entry_keeps, file_keeps, tree_keeps, k.calls, k.at_send) depth 12

  pub access_file-Keeps : (ino : ℕ) (mask : ℕ) → Keeps P (access_file ino mask)
  unfolding access_file
  access_file-Keeps ino mask =
      search (resource_keeps, entry_keeps, file_keeps, tree_keeps, k.calls, k.at_send) depth 12

pub ruleset attr_keeps = (
  get_attr-Keeps, set_mode-Keeps, set_owner-Keeps, set_size-Keeps, set_times-Keeps,
  set_attr_on-Keeps, set_attr-Keeps, stat_fs-Keeps, access_file-Keeps,
)
