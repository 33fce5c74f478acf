-- ===== src/Fs/Keeps/Framed.antt =====
-- An invariant that does not read the inodes is kept by what the handlers do to these, if the calls
-- keep it; and one that does not read the directories either is kept by all that they do.
use pagealignfs.Prelude.{ℕ, ◌+◌, Option, none, some, List}
use pagealignfs.Prelude.Bytes.{Text}
use pagealignfs.System.Calls.{Reply}
use pagealignfs.World.{World, Inode, Entry, Key, FusePollHandle, Directory}
use pagealignfs.Status.{StatusOr}
use pagealignfs.Effect
use pagealignfs.Effect.{modify}
use pagealignfs.Effect.Keeps.{Keeps, holds, keeps_rules}
use pagealignfs.Syscalls.Keeps.{CallsKeep}
use pagealignfs.Inode
use pagealignfs.Inode.{
  set_inode, generation_or_read, get_generation, add_poll_handle, get_file_version_from_path_fd,
}
use pagealignfs.InodeCache.{insert, insert_at, ref, ref_at, unref, unref_at}
use pagealignfs.Request.{send}
use pagealignfs.Fs.Streams.{new_directory, delete_directory}
use pagealignfs.Syscalls.Keeps.Files.{file_keeps}
use pagealignfs.Fs.Keeps.{
  StateKeeps, resource_keeps, destroy_inode-Keeps, destroy_poll_handle-Keeps, destroy_stream-Keeps,
}
use pagealignfs.Fs.Keeps.Streams.{get_directory-Keeps}

-- `P` does not read the inodes, and holds on when a new address is given out.
pub record Framed (P : World → Type 0) : Type 0 where
  pub at_state :
      (w : World) (root : Inode) (inodes : List Entry)
      → P w
      → P (record w { root = root; inodes = inodes })
  pub at_next : (w : World) → P w → P (record w { next_address = w.next_address + 1 })

module _ {P : World → Type 0} (calls : CallsKeep P) (f : Framed P) where
  modify-Framed : (g : World → World) → ((w : World) → P w → P (g w)) → Keeps P (modify g)
  unfolding modify
  modify-Framed g k = record { at = λ e w p. holds (k w p) }

  destroy_inode-Framed : (i : Inode) → Keeps P (Inode.destroy i)
  destroy_inode-Framed i = destroy_inode-Keeps calls i

  insert_at-Framed : (i : Inode) (found : Option Entry) → Keeps P (insert_at i found)
  unfolding insert_at modify Effect.gets Effect.◌>>=◌ Effect.pure
  insert_at-Framed i none = record { at = λ e w p. holds (f.at_next _ (f.at_state w _ _ p)) }
  insert_at-Framed i (some x) =
      search (keeps_rules, modify-Framed, f.at_state, destroy_inode-Framed)

  insert-Framed : (i : Inode) → Keeps P (insert i)
  unfolding insert
  insert-Framed i = search (keeps_rules, insert_at-Framed)

  ref_at-Framed : (k : Key) (ntimes : ℕ) (found : Option Entry) → Keeps P (ref_at k ntimes found)
  unfolding ref_at
  ref_at-Framed k ntimes none = search keeps_rules
  ref_at-Framed k ntimes (some x) = search (keeps_rules, modify-Framed, f.at_state)

  ref-Framed : (ino ntimes : ℕ) → Keeps P (ref ino ntimes)
  unfolding ref
  ref-Framed ino ntimes = search (resource_keeps, ref_at-Framed)

  unref_at-Framed :
      (k : Key) (ntimes : ℕ) (found : Option Entry) → Keeps P (unref_at k ntimes found)
  unfolding unref_at
  unref_at-Framed k ntimes none = search keeps_rules
  unref_at-Framed k ntimes (some x) =
      search (keeps_rules, modify-Framed, f.at_state, destroy_inode-Framed) depth 12

  unref-Framed : (ino ntimes : ℕ) → Keeps P (unref ino ntimes)
  unfolding unref
  unref-Framed ino ntimes = search (resource_keeps, unref_at-Framed)

  set_inode-Framed : (ino : ℕ) (i : Inode) → Keeps P (set_inode ino i)
  unfolding set_inode
  set_inode-Framed ino i = search (keeps_rules, modify-Framed, f.at_state)

  generation_or_read-Framed :
      (ino : ℕ) (i : Inode) (g : Option (StatusOr ℕ)) → Keeps P (generation_or_read ino i g)
  unfolding generation_or_read
  generation_or_read-Framed ino i (some r) = search keeps_rules
  generation_or_read-Framed ino i none =
      search (resource_keeps, file_keeps, set_inode-Framed, calls) depth 12

  get_generation-Framed : (ino : ℕ) → Keeps P (get_generation ino)
  unfolding get_generation
  get_generation-Framed ino = search (resource_keeps, generation_or_read-Framed)

  add_poll_handle-Framed : (ino : ℕ) (h : FusePollHandle) → Keeps P (add_poll_handle ino h)
  unfolding add_poll_handle
  add_poll_handle-Framed ino h =
      search (resource_keeps, destroy_poll_handle-Keeps, set_inode-Framed, calls) depth 12

  module _ (at_send : (r : Reply) (name : Text) → Keeps P (send r name))
      (at_new_directory : (d : Directory) → Keeps P (new_directory d))
      (at_delete_directory : (fh : ℕ) → Keeps P (delete_directory fh)) where
    pub framed_state : StateKeeps P
    framed_state = record {
      calls = calls;
      at_send = at_send;
      at_insert = insert-Framed;
      at_new_directory = at_new_directory;
      at_delete_directory = at_delete_directory;
      at_ref = ref-Framed;
      at_unref = unref-Framed;
      at_get_generation = get_generation-Framed;
      at_add_poll_handle = add_poll_handle-Framed;
    }

-- `P` reads only the trace, the request and the options.
pub record Stateless (P : World → Type 0) : Type 0 where
  pub framed : Framed P
  pub at_directories :
      (w : World) (directories : List (ℕ × Directory))
      → P w
      → P (record w { directories = directories })

module _ {P : World → Type 0} (calls : CallsKeep P) (f : Stateless P) where
  new_directory-Stateless : (d : Directory) → Keeps P (new_directory d)
  unfolding new_directory modify Effect.gets Effect.◌>>=◌ Effect.pure
  new_directory-Stateless d = record {
    at = λ e w p. holds (f.framed.at_next _ (f.at_directories w _ p));
  }

  delete_directory-Stateless : (fh : ℕ) → Keeps P (delete_directory fh)
  unfolding delete_directory
  delete_directory-Stateless fh =
      search
        (
          keeps_rules, get_directory-Keeps, destroy_stream-Keeps, modify-Framed, f.at_directories,
          calls,
        )
        depth 12

  pub stateless_state : ((r : Reply) (name : Text) → Keeps P (send r name)) → StateKeeps P
  stateless_state at_send =
      framed_state calls f.framed at_send new_directory-Stateless delete_directory-Stateless
