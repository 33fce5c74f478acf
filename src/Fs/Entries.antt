-- ===== src/Fs/Entries.antt =====
-- The private helpers of PageAlignFS, Create, Lookup and the forgetting of inodes.
use pagealignfs.Prelude.{ℕ, Bool, true, false, List, [], ◌∷◌, ◌==◌, if◌then◌else◌}
use pagealignfs.Prelude.Bytes.{Text, text}
use pagealignfs.System.Types.{StatusCode, FileInfo, EntryParam, ForgetData, s_isdir}
use pagealignfs.System.Constants.{at_fdcwd}
use pagealignfs.World.{Inode}
use pagealignfs.Status.{failure}
use pagealignfs.Effect.{gets}
use pagealignfs.Effect.Fallible.{E, pure, fail, lift, unless_ok, log_if_error, ◌>>=◌, ◌>>◌}
use pagealignfs.Inode
use pagealignfs.Inode.{get_inode, get_fd, stat_fd, get_generation}
use pagealignfs.InodeCache.{insert, ref, unref, with_shared}
use pagealignfs.Request.Replies.{reply_attr, reply_entry, reply_create}

-- PageAlignFS::Create
unfoldable pub create_fs : Text → E Inode
unfolding Inode.create Inode.destroy stat_fd
create_fs srcdir = do
  root ← Inode.create srcdir at_fdcwd
  unless_ok
      (do
        st ← stat_fd (get_fd root)
        if s_isdir st.st_mode
            then pure root
            else fail
                (failure StatusCode.k_failed_precondition (text "Mountpoint is not a directory")))
      (Inode.destroy root)

unfoldable pub find_or_create_inode : (parent : ℕ) → Text → E ℕ
unfolding Inode.create insert
find_or_create_inode parent path = do
  p ← lift (get_inode parent)
  inode ← Inode.create path (get_fd p)
  lift (insert inode)

unfoldable pub generation_if : Bool → ℕ → E ℕ
unfolding get_generation
generation_if true ino = get_generation ino
generation_if false ino = pure 0

unfoldable pub create_fuse_entry_param : ℕ → (with_generation : Bool) → E EntryParam
unfolding generation_if Inode.stat
create_fuse_entry_param ino with_generation = do
  attr ← Inode.stat ino
  generation ← generation_if with_generation ino
  opts ← lift (gets (λ w. w.opts))
  pure (record {
    ino = ino;
    generation = generation;
    attr = attr;
    attr_timeout = opts.kernel_attribute_timeout;
    entry_timeout = opts.kernel_entry_timeout;
  })

-- The body of ReplyWithLookup and of ReplyWithCreate where the inode is found, at the reply that
-- they send.
unfoldable pub reply_in_scope : (parent ino : ℕ) → (EntryParam → E (Unit {0})) → E (Unit {0})
unfolding create_fuse_entry_param ref
reply_in_scope parent ino reply = do
  p ← lift (get_inode parent)
  i ← lift (get_inode ino)
  if p.src_dev_num == i.src_dev_num
      then (do
        param ← create_fuse_entry_param ino true
        ref ino 1
        unless_ok (reply param) (log_if_error (unref ino 1)))
      else fail (
          failure StatusCode.k_failed_precondition
            (text "PageAlignFS cannot span multiple source mounts"))

unfoldable pub reply_with_entry : (parent : ℕ) → Text → (EntryParam → E (Unit {0})) → E (Unit {0})
unfolding find_or_create_inode reply_in_scope with_shared
reply_with_entry parent name reply = do
  ino ← find_or_create_inode parent name
  with_shared ino (reply_in_scope parent ino reply)

unfoldable pub reply_with_lookup : (parent : ℕ) → Text → E (Unit {0})
unfolding reply_with_entry
reply_with_lookup parent name = reply_with_entry parent name reply_entry

unfoldable pub reply_with_create : (parent : ℕ) → Text → FileInfo → E (Unit {0})
unfolding reply_with_entry
reply_with_create parent name fi = reply_with_entry parent name (λ param. reply_create param fi)

-- The time-out is that of entries.
unfoldable pub reply_with_attrs : ℕ → E (Unit {0})
unfolding Inode.stat reply_attr
reply_with_attrs ino = do
  attrs ← Inode.stat ino
  opts ← lift (gets (λ w. w.opts))
  reply_attr attrs opts.kernel_entry_timeout

-- Init and Destroy only log.
unfoldable pub init : E (Unit {0})
init = pure tt

unfoldable pub destroy : E (Unit {0})
destroy = pure tt

unfoldable pub lookup : (parent : ℕ) → Text → E (Unit {0})
unfolding reply_with_lookup
lookup parent name = do _ ← lift (get_inode parent); reply_with_lookup parent name

unfoldable pub forget : ℕ → (nlookup : ℕ) → E (Unit {0})
unfolding unref
forget ino nlookup = do _ ← lift (get_inode ino); unref ino nlookup

unfoldable pub forget_multi : List ForgetData → E (Unit {0})
unfolding unref
forget_multi [] = pure tt
forget_multi (f ∷ forgets) = do unref f.ino f.nlookup; forget_multi forgets
