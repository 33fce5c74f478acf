-- ===== src/Fs/Keeps/Streams.antt =====
-- The handlers for directories keep what the interface keeps.
use pagealignfs.Prelude.{ℕ, zero, suc, Bool, List, [], ◌∷◌, Option, none, some}
use pagealignfs.System.Types.{Dirent, FileInfo}
use pagealignfs.World.{World, Directory}
use pagealignfs.Status.{StatusOr, ok, err}
use pagealignfs.Effect.{M}
use pagealignfs.Effect.Keeps.{Keeps, Keeps-bind, Keeps-diverge, keeps_rules}
use pagealignfs.Syscalls.Keeps.Files.{file_keeps}
use pagealignfs.Syscalls.Keeps.Streams.{stream_keeps}
use pagealignfs.Request.DirsBuilder
use pagealignfs.Request.DirsBuilder.{FuseDirsBuilder}
use pagealignfs.Fs.Keeps.{StateKeeps, resource_keeps, create_stream-Keeps, add_dir_entry-Keeps}
use pagealignfs.Fs.Keeps.Entries.{find_or_create_inode-Keeps, create_fuse_entry_param-Keeps}
use pagealignfs.Fs.Streams.{
  or_fault, get_directory, open_dir, release_dir, f_sync_dir, Progress, full, listed, retained,
  add_entry, end_round, next_round, list_found, list_entry, list_entries, Listing, unref_all,
  finish_listing, read_dir_internal, read_dir, read_dir_plus,
}

module _ {P : World → Type 0} where
  or_fault-Keeps : (o : Option Directory) → Keeps P (or_fault o)
  unfolding or_fault
  or_fault-Keeps none = search keeps_rules
  or_fault-Keeps (some x) = search keeps_rules

  pub get_directory-Keeps : (fh : ℕ) → Keeps P (get_directory fh)
  unfolding get_directory
  get_directory-Keeps fh = search (keeps_rules, or_fault-Keeps)

module _ {P : World → Type 0} (k : StateKeeps P) where
  pub open_dir-Keeps : (ino : ℕ) (fi : FileInfo) → Keeps P (open_dir ino fi)
  unfolding open_dir
  open_dir-Keeps ino fi =
      search
        (resource_keeps, file_keeps, create_stream-Keeps, k.at_new_directory, k.calls, k.at_send)
        depth 12

  pub release_dir-Keeps : (ino : ℕ) (fi : FileInfo) → Keeps P (release_dir ino fi)
  unfolding release_dir
  release_dir-Keeps ino fi = search (resource_keeps, k.at_delete_directory)

  pub f_sync_dir-Keeps :
      (ino : ℕ) (datasync : Bool) (fi : FileInfo) → Keeps P (f_sync_dir ino datasync fi)
  unfolding f_sync_dir
  f_sync_dir-Keeps ino datasync fi =
      search (resource_keeps, get_directory-Keeps, file_keeps, stream_keeps, k.calls)

  add_entry-Keeps :
      (ino : ℕ) (ent : Dirent) (plus : Bool) (dirs : FuseDirsBuilder)
      → Keeps P (add_entry ino ent plus dirs)
  unfolding add_entry
  add_entry-Keeps ino ent plus dirs =
      search (keeps_rules, create_fuse_entry_param-Keeps, add_dir_entry-Keeps, k.calls, k.at_ref)
        depth 12

  end_round-Keeps : (ino : ℕ) (r : StatusOr Progress) → Keeps P (end_round ino r)
  unfolding end_round
  end_round-Keeps ino (ok (retained dirs)) = search keeps_rules
  end_round-Keeps ino (ok full) = search (keeps_rules, k.at_unref)
  end_round-Keeps ino (ok (listed dirs)) = search (keeps_rules, k.at_unref)
  end_round-Keeps ino (err st) = search (keeps_rules, k.at_unref)

  module _ (loop : FuseDirsBuilder → List ℕ → M Listing)
      (kl : (dirs : FuseDirsBuilder) (inodes : List ℕ) → Keeps P (loop dirs inodes)) where
    next_round-Keeps :
        (dirs : FuseDirsBuilder) (inodes : List ℕ) (ino : ℕ) (r : StatusOr Progress)
        → Keeps P (next_round loop dirs inodes ino r)
    unfolding next_round
    next_round-Keeps dirs inodes ino (ok (retained dirs')) = kl _ _
    next_round-Keeps dirs inodes ino (ok full) = search keeps_rules
    next_round-Keeps dirs inodes ino (ok (listed dirs')) = kl _ _
    next_round-Keeps dirs inodes ino (err st) = search keeps_rules

    list_found-Keeps :
        (ent : Dirent) (plus : Bool) (dirs : FuseDirsBuilder) (inodes : List ℕ) (r : StatusOr ℕ)
        → Keeps P (list_found loop ent plus dirs inodes r)
    unfolding list_found
    list_found-Keeps ent plus dirs inodes (err st) = search keeps_rules
    list_found-Keeps ent plus dirs inodes (ok ino) =
        search (keeps_rules, add_entry-Keeps, end_round-Keeps, next_round-Keeps)

    list_entry-Keeps :
        (dir_inode : ℕ) (plus : Bool) (dirs : FuseDirsBuilder) (inodes : List ℕ)
        (r : StatusOr (Option Dirent))
        → Keeps P (list_entry loop dir_inode plus dirs inodes r)
    unfolding list_entry
    list_entry-Keeps dir_inode plus dirs inodes (err st) = search keeps_rules
    list_entry-Keeps dir_inode plus dirs inodes (ok none) = search keeps_rules
    list_entry-Keeps dir_inode plus dirs inodes (ok (some ent)) =
        Keeps-bind _ _ (find_or_create_inode-Keeps k dir_inode ent.d_name)
          (list_found-Keeps ent plus dirs inodes)

  list_entries-Keeps :
      (fuel dir_inode dir : ℕ) (plus : Bool) (dirs : FuseDirsBuilder) (inodes : List ℕ)
      → Keeps P (list_entries fuel dir_inode dir plus dirs inodes)
  unfolding list_entries
  list_entries-Keeps zero dir_inode dir plus dirs inodes = Keeps-diverge
  list_entries-Keeps (suc fuel) dir_inode dir plus dirs inodes =
      Keeps-bind _ _ (search (stream_keeps, k.calls))
        (list_entry-Keeps _ (list_entries-Keeps fuel dir_inode dir plus) dir_inode plus dirs inodes)

  unref_all-Keeps : (inodes : List ℕ) → Keeps P (unref_all inodes)
  unfolding unref_all
  unref_all-Keeps [] = search keeps_rules
  unref_all-Keeps (ino ∷ inodes) =
      Keeps-bind _ _ (search (keeps_rules, k.at_unref)) (λ _. unref_all-Keeps inodes)

  reply-Keeps : (dirs : FuseDirsBuilder) → Keeps P (DirsBuilder.reply dirs)
  unfolding DirsBuilder.reply
  reply-Keeps dirs = search (keeps_rules, k.at_send)

  finish_listing-Keeps : (l : Listing) → Keeps P (finish_listing l)
  unfolding finish_listing
  finish_listing-Keeps (r, inodes) = search (keeps_rules, unref_all-Keeps, reply-Keeps)

  read_dir_internal-Keeps :
      (dir_inode size off : ℕ) (fi : FileInfo) (plus : Bool)
      → Keeps P (read_dir_internal dir_inode size off fi plus)
  unfolding read_dir_internal
  read_dir_internal-Keeps dir_inode size off fi plus = search (
    keeps_rules, get_directory-Keeps, stream_keeps, list_entries-Keeps, finish_listing-Keeps,
    k.calls,
  )

  pub read_dir-Keeps : (ino size off : ℕ) (fi : FileInfo) → Keeps P (read_dir ino size off fi)
  unfolding read_dir
  read_dir-Keeps ino size off fi = search (resource_keeps, read_dir_internal-Keeps)

  pub read_dir_plus-Keeps :
      (ino size off : ℕ) (fi : FileInfo) → Keeps P (read_dir_plus ino size off fi)
  unfolding read_dir_plus
  read_dir_plus-Keeps ino size off fi = search (resource_keeps, read_dir_internal-Keeps)

pub ruleset stream_handler_keeps =
    (open_dir-Keeps, release_dir-Keeps, f_sync_dir-Keeps, read_dir-Keeps, read_dir_plus-Keeps)
