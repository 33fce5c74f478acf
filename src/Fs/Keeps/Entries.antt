-- ===== src/Fs/Keeps/Entries.antt =====
-- The helpers of PageAlignFS, Create, Lookup and the forgets keep what the interface keeps.
use pagealignfs.Prelude.{ℕ, Bool, true, false, List, [], ◌∷◌}
use pagealignfs.Prelude.Bytes.{Text}
use pagealignfs.System.Types.{FileInfo, EntryParam, ForgetData}
use pagealignfs.World.{World}
use pagealignfs.Effect.Fallible.{E}
use pagealignfs.Effect.Keeps.{Keeps, keeps_rules, Keeps-try}
use pagealignfs.InodeCache.{with_shared}
use pagealignfs.Request.Replies.{reply_entry, reply_create}
use pagealignfs.Fs.Keeps.{StateKeeps, resource_keeps}
use pagealignfs.Fs.Entries.{
  create_fs, find_or_create_inode, generation_if, create_fuse_entry_param, reply_in_scope,
  reply_with_entry, reply_with_lookup, reply_with_create, reply_with_attrs, lookup, forget,
  forget_multi,
}

module _ {P : World → Type 0} (k : StateKeeps P) where
  pub create_fs-Keeps : (srcdir : Text) → Keeps P (create_fs srcdir)
  unfolding create_fs
  create_fs-Keeps srcdir = search (resource_keeps, k.calls)

  pub with_shared-Keeps :
      {A : Type 0} (ino : ℕ) (body : E A) → Keeps P body → Keeps P (with_shared ino body)
  unfolding with_shared
  with_shared-Keeps ino body kb = search (keeps_rules, k.at_unref)

  pub find_or_create_inode-Keeps :
      (parent : ℕ) (path : Text) → Keeps P (find_or_create_inode parent path)
  unfolding find_or_create_inode
  find_or_create_inode-Keeps parent path = search (resource_keeps, k.calls, k.at_insert)

  generation_if-Keeps : (b : Bool) (ino : ℕ) → Keeps P (generation_if b ino)
  unfolding generation_if
  generation_if-Keeps true ino = k.at_get_generation ino
  generation_if-Keeps false ino = search keeps_rules

  pub create_fuse_entry_param-Keeps :
      (ino : ℕ) (plus : Bool) → Keeps P (create_fuse_entry_param ino plus)
  unfolding create_fuse_entry_param
  create_fuse_entry_param-Keeps ino plus = search (resource_keeps, k.calls, generation_if-Keeps)

  reply_in_scope-Keeps :
      (parent ino : ℕ) (reply : EntryParam → E (Unit {0}))
      → ((param : EntryParam) → Keeps P (reply param))
      → Keeps P (reply_in_scope parent ino reply)
  unfolding reply_in_scope
  reply_in_scope-Keeps parent ino reply kr =
      search (resource_keeps, create_fuse_entry_param-Keeps, k.at_ref, k.at_unref, kr) depth 12

  reply_with_entry-Keeps :
      (parent : ℕ) (name : Text) (reply : EntryParam → E (Unit {0}))
      → ((param : EntryParam) → Keeps P (reply param))
      → Keeps P (reply_with_entry parent name reply)
  unfolding reply_with_entry
  reply_with_entry-Keeps parent name reply kr =
      search (keeps_rules, find_or_create_inode-Keeps, with_shared-Keeps, reply_in_scope-Keeps, kr)

  pub reply_with_lookup-Keeps : (parent : ℕ) (name : Text) → Keeps P (reply_with_lookup parent name)
  unfolding reply_with_lookup reply_entry
  reply_with_lookup-Keeps parent name =
      reply_with_entry-Keeps parent name reply_entry (λ param. k.at_send _ _)

  pub reply_with_create-Keeps :
      (parent : ℕ) (name : Text) (fi : FileInfo) → Keeps P (reply_with_create parent name fi)
  unfolding reply_with_create reply_create
  reply_with_create-Keeps parent name fi =
      reply_with_entry-Keeps parent name (λ param. reply_create param fi) (λ param. k.at_send _ _)

  pub reply_with_attrs-Keeps : (ino : ℕ) → Keeps P (reply_with_attrs ino)
  unfolding reply_with_attrs
  reply_with_attrs-Keeps ino = search (resource_keeps, k.calls, k.at_send)

  pub lookup-Keeps : (parent : ℕ) (name : Text) → Keeps P (lookup parent name)
  unfolding lookup
  lookup-Keeps parent name = search (resource_keeps, reply_with_lookup-Keeps)

  pub forget-Keeps : (ino nlookup : ℕ) → Keeps P (forget ino nlookup)
  unfolding forget
  forget-Keeps ino nlookup = search (resource_keeps, k.at_unref)

  pub forget_multi-Keeps : (forgets : List ForgetData) → Keeps P (forget_multi forgets)
  unfolding forget_multi
  forget_multi-Keeps [] = search keeps_rules
  forget_multi-Keeps (f ∷ forgets) =
      Keeps-try _ _ (k.at_unref f.ino f.nlookup) (λ _. forget_multi-Keeps forgets)

pub ruleset entry_keeps = (
  find_or_create_inode-Keeps, create_fuse_entry_param-Keeps, reply_with_lookup-Keeps,
  reply_with_create-Keeps, reply_with_attrs-Keeps, lookup-Keeps, forget-Keeps, forget_multi-Keeps,
)
