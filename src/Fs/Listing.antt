-- ===== src/Fs/Listing.antt =====
-- What the rounds of ReadDirInternal (pafs/page_align_fs.cc) call, and whether it comes to an end.

pub mod Rounds
use pagealignfs.Prelude.{ℕ, Bool, true, false, List, [], ◌∷◌, Option, none, some}
use pagealignfs.Prelude.Bytes.{Text}
use pagealignfs.System.Calls.{Reply}
use pagealignfs.World.{Inode, Entry, Key, Directory}
use pagealignfs.Status.{StatusOr, ok, err}
use pagealignfs.Effect.Finishes.{Finishes, Finishes-bind, Quiet-Finishes, finishes_rules}
use pagealignfs.Effect.Returns.{Quiet-call, Quiet-attempt, quiet_rules}
use pagealignfs.Syscalls.Quiet.{errno_result-Quiet, readdir-Quiet, seekdir-Quiet}
use pagealignfs.Inode
use pagealignfs.Inode.{get_inode, set_inode, stat, get_generation, generation_or_read}
use pagealignfs.Inode.Quiet.{create-Quiet, stat_fd-Quiet, version-Quiet, destroy_inode-Quiet}
use pagealignfs.InodeCache.{
  key_of, set_count, insert_at, insert, ref_at, ref, unref_at, unref, erase_row,
}
use pagealignfs.Request.{send, send_to, clear}
use pagealignfs.Request.DirsBuilder
use pagealignfs.Request.DirsBuilder.{FuseDirsBuilder}
use pagealignfs.Request.Replies.{reply_buf}
use pagealignfs.Fs.Entries.{find_or_create_inode, create_fuse_entry_param, generation_if}
use pagealignfs.Fs.Streams
use pagealignfs.Fs.Streams.{get_directory, unref_all, finish_listing}

or_fault-Finishes : (o : Option Entry) → Finishes (Inode.or_fault o)
unfolding Inode.or_fault
or_fault-Finishes none = search finishes_rules
or_fault-Finishes (some x) = search finishes_rules

pub get_inode-Finishes : (ino : ℕ) → Finishes (get_inode ino)
unfolding get_inode
get_inode-Finishes ino = search (finishes_rules, or_fault-Finishes)

set_inode-Finishes : (ino : ℕ) (i : Inode) → Finishes (set_inode ino i)
unfolding set_inode
set_inode-Finishes ino i = search finishes_rules

set_count-Finishes : (k : Key) (n : ℕ) → Finishes (set_count k n)
unfolding set_count
set_count-Finishes k n = search finishes_rules

insert_at-Finishes : (i : Inode) (found : Option Entry) → Finishes (insert_at i found)
unfolding insert_at
insert_at-Finishes i none = search finishes_rules
insert_at-Finishes i (some x) =
    search (finishes_rules, set_count-Finishes, Quiet-Finishes, destroy_inode-Quiet)

insert-Finishes : (i : Inode) → Finishes (insert i)
unfolding insert
insert-Finishes i = search (finishes_rules, insert_at-Finishes)

ref_at-Finishes : (k : Key) (n : ℕ) (found : Option Entry) → Finishes (ref_at k n found)
unfolding ref_at
ref_at-Finishes k n none = search finishes_rules
ref_at-Finishes k n (some x) = search (finishes_rules, set_count-Finishes)

pub ref-Finishes : (ino n : ℕ) → Finishes (ref ino n)
unfolding ref
ref-Finishes ino n = search (finishes_rules, get_inode-Finishes, ref_at-Finishes)

erase_row-Finishes : (k : Key) (x : Entry) → Finishes (erase_row k x)
unfolding erase_row
erase_row-Finishes k x = search (finishes_rules, Quiet-Finishes, destroy_inode-Quiet)

unref_at-Finishes : (k : Key) (n : ℕ) (found : Option Entry) → Finishes (unref_at k n found)
unfolding unref_at
unref_at-Finishes k n none = search finishes_rules
unref_at-Finishes k n (some x) = search (finishes_rules, set_count-Finishes, erase_row-Finishes)

pub unref-Finishes : (ino n : ℕ) → Finishes (unref ino n)
unfolding unref
unref-Finishes ino n = search (finishes_rules, get_inode-Finishes, unref_at-Finishes)

pub find_or_create-Finishes :
    (parent : ℕ) (name : Text) → Finishes (find_or_create_inode parent name)
unfolding find_or_create_inode
find_or_create-Finishes parent name =
    search (finishes_rules, get_inode-Finishes, insert-Finishes, Quiet-Finishes, create-Quiet)

generation_or_read-Finishes :
    (ino : ℕ) (i : Inode) (g : Option (StatusOr ℕ)) → Finishes (generation_or_read ino i g)
unfolding generation_or_read
generation_or_read-Finishes ino i (some r) = search finishes_rules
generation_or_read-Finishes ino i none =
    search (finishes_rules, set_inode-Finishes, Quiet-Finishes, Quiet-attempt, version-Quiet)

get_generation-Finishes : (ino : ℕ) → Finishes (get_generation ino)
unfolding get_generation
get_generation-Finishes ino =
    search (finishes_rules, get_inode-Finishes, generation_or_read-Finishes)

generation_if-Finishes : (b : Bool) (ino : ℕ) → Finishes (generation_if b ino)
unfolding generation_if
generation_if-Finishes true ino = get_generation-Finishes ino
generation_if-Finishes false ino = search finishes_rules

stat-Finishes : (ino : ℕ) → Finishes (stat ino)
unfolding stat
stat-Finishes ino = search (finishes_rules, get_inode-Finishes, Quiet-Finishes, stat_fd-Quiet)

pub create_fuse_entry_param-Finishes :
    (ino : ℕ) (b : Bool) → Finishes (create_fuse_entry_param ino b)
unfolding create_fuse_entry_param
create_fuse_entry_param-Finishes ino b =
    search (finishes_rules, stat-Finishes, generation_if-Finishes)

send_to-Finishes : (r : Reply) (name : Text) (req : Option ℕ) → Finishes (send_to r name req)
unfolding send_to clear
send_to-Finishes r name none = search finishes_rules
send_to-Finishes r name (some req) =
    search (finishes_rules, Quiet-Finishes, Quiet-call, errno_result-Quiet)

send-Finishes : (r : Reply) (name : Text) → Finishes (send r name)
unfolding send
send-Finishes r name = search (finishes_rules, send_to-Finishes)

unref_all-Finishes : (inos : List ℕ) → Finishes (unref_all inos)
unfolding unref_all
unref_all-Finishes [] = search finishes_rules
unref_all-Finishes (ino ∷ inos) =
    Finishes-bind _ _ (search (finishes_rules, unref-Finishes)) (λ _. unref_all-Finishes inos)

reply-Finishes : (b : FuseDirsBuilder) → Finishes (DirsBuilder.reply b)
unfolding DirsBuilder.reply reply_buf
reply-Finishes b = search (finishes_rules, send-Finishes)

pub finish_listing-Finishes :
    (r : StatusOr FuseDirsBuilder) (inos : List ℕ) → Finishes (finish_listing (r, inos))
unfolding finish_listing
finish_listing-Finishes r inos =
    search (finishes_rules, reply-Finishes, unref_all-Finishes) depth 12

directory-Finishes : (o : Option Directory) → Finishes (Streams.or_fault o)
unfolding Streams.or_fault
directory-Finishes none = search finishes_rules
directory-Finishes (some d) = search finishes_rules

pub get_directory-Finishes : (fh : ℕ) → Finishes (get_directory fh)
unfolding get_directory
get_directory-Finishes fh = search (finishes_rules, directory-Finishes)
