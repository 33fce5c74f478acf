-- ===== src/Fs/Descriptors/Entries.antt =====
-- The descriptors in the handlers that answer with an entry: reading an inode, replying, and the
-- scope of ReplyWithLookup.
use pagealignfs.Prelude.{
  ℕ, Bool, Bool-cases, Option-cases, true, false, inl, inr, ◌≡◌, refl, arith, ◌==◌, Option, none,
  some,
}
use pagealignfs.Prelude.Bytes.{Text}
use pagealignfs.System.Types.{EntryParam}
use pagealignfs.System.Calls.{Call, Reply}
use pagealignfs.World.{Inode}
use pagealignfs.Status.{StatusOr}
use pagealignfs.Effect
use pagealignfs.Effect.{M, call, gets, modify}
use pagealignfs.Effect.Fallible.{E}
use pagealignfs.Effect.Keeps.{
  Keeps, holds, none_faulted, Keeps-try, Keeps-lift, Keeps-attempt, keeps_rules,
}
use pagealignfs.Effect.Gives.{Gives, Gives-then, Gives-lift, Gives-lift_then, Keeps-Gives}
use pagealignfs.Syscalls.Keeps.{syscall_rules}
use pagealignfs.Inode
use pagealignfs.Inode.{
  entry_at, get_inode, set_inode, stat, stat_fd, get_generation, generation_or_read,
}
use pagealignfs.InodeCache.{with_shared}
use pagealignfs.Request.{send, send_to, clear}
use pagealignfs.Fs.Entries.{
  find_or_create_inode, generation_if, create_fuse_entry_param, reply_in_scope, reply_with_entry,
}
use pagealignfs.Fs.Keeps.{get_inode-Keeps}
use pagealignfs.Fs.Descriptors.{HasFd, Accounted, entry_at-HasFd, HaveFds-set_at, length-set_at}
use pagealignfs.Fs.Descriptors.Owned.{
  call-Accounted, create-Made, version-Accounted, stat_fd-Accounted,
}
use pagealignfs.Fs.Descriptors.Cache.{insert-Accounted, ref-Accounted, unref-Accounted}

module _ (a c : ℕ) where
  clear-Accounted : (d : ℕ) → Keeps (Accounted a c d) clear
  unfolding clear modify
  clear-Accounted d = record { at = λ e w p. holds p }

  send_to-Accounted :
      (d : ℕ) (r : Reply) (name : Text) (req : Option ℕ)
      → Keeps (Accounted a c d) (send_to r name req)
  unfolding send_to
  send_to-Accounted d r name none = search keeps_rules
  send_to-Accounted d r name (some req) =
      search (
        syscall_rules,
        clear-Accounted,
        call-Accounted a c d (Call.fuse_reply _ _) (λ rc. refl) refl,
      )

  pub send-Accounted : (d : ℕ) (r : Reply) (name : Text) → Keeps (Accounted a c d) (send r name)
  unfolding send
  send-Accounted d r name = search (keeps_rules, send_to-Accounted)

  -- A write to the object at a number: it goes to the root, or to a row.
  set_inode-Accounted :
      (d ino : ℕ) (i : Inode)
      → ((ino == 1) ≡ false → HasFd i)
      → Keeps (Accounted a c d) (set_inode ino i)
  unfolding set_inode modify
  set_inode-Accounted d ino i has = record {
    at = λ e w (fds, account). elim (Bool-cases (ino == 1)) [
      | inl root ↦ rw root (holds (fds, account))
      | inr other ↦
          let same = length-set_at ino i w.inodes in
          rw other
            (holds (HaveFds-set_at ino i w.inodes (has other) fds, omega (arith, account, same)))
    ];
  }

  -- A cached inode that is read has a descriptor.
  get_inode-HasFd :
      (d ino : ℕ)
      → Gives
          (Accounted a c d)
          (λ i w. ((ino == 1) ≡ false → HasFd i) × Accounted a c d w)
          (get_inode ino)
  unfolding get_inode Inode.or_fault gets Effect.◌>>=◌ Effect.pure Effect.fault
  get_inode-HasFd d ino = record {
    at = λ e w p. elim (Bool-cases (ino == 1)) [
      | inl root ↦ rw root (holds ((λ h. ground (arith, root, h)), p))
      | inr other ↦ elim (Option-cases (entry_at ino w.inodes)) [
        | inl gone ↦ rw (other, gone) none_faulted
        | inr (x, found) ↦
            rw (other, found) (holds ((λ _. entry_at-HasFd ino w.inodes x p.0 found), p))
      ]
    ];
  }

  generation_or_read-Accounted :
      (d ino : ℕ) (i : Inode) (g : Option (StatusOr ℕ))
      → ((ino == 1) ≡ false → HasFd i)
      → Keeps (Accounted a c d) (generation_or_read ino i g)
  unfolding generation_or_read
  generation_or_read-Accounted d ino i (some r) has = search keeps_rules
  generation_or_read-Accounted d ino i none has =
      Keeps-try _ _ (Keeps-attempt _ (version-Accounted a c d (Inode.get_fd i))) λ r.
        Keeps-try _ _
          (Keeps-lift _ (set_inode-Accounted d ino (record i { generation = some r }) has))
          λ _. search keeps_rules

  get_generation-Accounted : (d ino : ℕ) → Keeps (Accounted a c d) (get_generation ino)
  unfolding get_generation
  get_generation-Accounted d ino = record {
    at =
        (Gives-lift_then {R = λ _. Accounted a c d} _ _ (get_inode-HasFd d ino) λ i. record {
          at = λ e w (has, p). (generation_or_read-Accounted d ino i i.generation has).at e w p;
        }).at;
  }

  stat-Accounted : (d ino : ℕ) → Keeps (Accounted a c d) (stat ino)
  unfolding stat
  stat-Accounted d ino = search (keeps_rules, get_inode-Keeps, stat_fd-Accounted)

  generation_if-Accounted :
      (d : ℕ) (b : Bool) (ino : ℕ) → Keeps (Accounted a c d) (generation_if b ino)
  unfolding generation_if
  generation_if-Accounted d true ino = get_generation-Accounted d ino
  generation_if-Accounted d false ino = search keeps_rules

  create_fuse_entry_param-Accounted :
      (d ino : ℕ) (b : Bool) → Keeps (Accounted a c d) (create_fuse_entry_param ino b)
  unfolding create_fuse_entry_param
  create_fuse_entry_param-Accounted d ino b =
      search (keeps_rules, stat-Accounted, generation_if-Accounted)

  find_or_create-Accounted :
      (d parent : ℕ) (name : Text)
      → Gives (Accounted a c d) (λ _. Accounted a c d) (find_or_create_inode parent name)
  unfolding find_or_create_inode
  find_or_create-Accounted d parent name =
      Gives-lift_then _ _ (Keeps-Gives _ (get_inode-Keeps parent)) λ p.
        Gives-then _ _ (create-Made a c d name (Inode.get_fd p))
          (λ i. record {
            at = λ e w (has, q).
                (Gives-lift {R = λ _. Accounted a c d} _ (insert-Accounted a c d i has)
                    (λ _ w' k. k)).at
                  e w q;
          })
          (λ st w q. q)

  module _ (d : ℕ) (reply : EntryParam → E (Unit {0}))
      (kr : (param : EntryParam) → Keeps (Accounted a c d) (reply param)) where
    reply_in_scope-Accounted :
        (parent ino : ℕ) → Keeps (Accounted a c d) (reply_in_scope parent ino reply)
    unfolding reply_in_scope
    reply_in_scope-Accounted parent ino =
        search
          (
            keeps_rules,
            get_inode-Keeps,
            create_fuse_entry_param-Accounted,
            ref-Accounted a c,
            unref-Accounted a c,
            kr,
          )
          depth 14

    pub reply_with_entry-Accounted :
        (parent : ℕ) (name : Text) → Keeps (Accounted a c d) (reply_with_entry parent name reply)
    unfolding reply_with_entry with_shared
    reply_with_entry-Accounted parent name = record {
      at =
          (Gives-then {R = λ _. Accounted a c d} _ _ (find_or_create-Accounted d parent name)
            (λ ino.
              Keeps-Gives _ (search (keeps_rules, reply_in_scope-Accounted, unref-Accounted a c)))
            (λ st w q. q)).at;
    }
