-- ===== src/Fs/Balance/Making.antt =====
-- The references that Mknod, Mkdir, Symlink, Link and Create give to the kernel.
use pagealignfs.Prelude.{ℕ, ◌+◌, ◌<◌, refl}
use pagealignfs.Prelude.Bytes.{Text}
use pagealignfs.System.{Env}
use pagealignfs.System.Types.{FileInfo}
use pagealignfs.World.{World, Key, FileDescriptor}
use pagealignfs.Status.{StatusOr, ok, err}
use pagealignfs.Resource.Descriptor.{with_fd, end_scope}
use pagealignfs.Inode.Quiet.{destroy_fd-Quiet}
use pagealignfs.Effect
use pagealignfs.Effect.Fallible
use pagealignfs.Effect.Fallible.{E}
use pagealignfs.Effect.Returns.{Returns, returns, Quiet}
use pagealignfs.Effect.Ensures.{
  Ensures, Ensures-then, Ensures-lift_then, Ensures-bind, Ensures-weaken, Quiet-Ensures,
  IsTraceless,
}
use pagealignfs.Syscalls.Quiet.{
  openat-Quiet, mknodat-Quiet, mkdirat-Quiet, symlinkat-Quiet, linkat-Quiet,
}
use pagealignfs.InodeCache.{u64}
use pagealignfs.InodeCache.Counts.{count_of, IsCache}
use pagealignfs.InodeCache.Reach.{IsLive, get_inode-IsLive}
use pagealignfs.Request.Replies.{reply_entry, reply_create}
use pagealignfs.Fs.Entries.{reply_with_lookup, reply_with_create}
use pagealignfs.Fs.Names.{mknod, mkdir, symlink, link}
use pagealignfs.Fs.Files.{create}
use pagealignfs.Fs.Balance.{
  Before, IsBalanced, IsReply, Quiet-Before, get_inode-Before, reply_with_entry-IsBalanced,
  then_reply-IsBalanced,
}
use pagealignfs.Fs.Balance.Scope.{send-Live}

reply_entry-IsReply : IsReply reply_entry
unfolding reply_entry
reply_entry-IsReply base p k n param = send-Live base p k n _ _

-- What a scope with a descriptor in it returns, without the descriptor.
abbrev without_fd : {A : Type 0} → StatusOr (A × FileDescriptor) → StatusOr A
without_fd (ok (a, _)) = ok a
without_fd (err st) = err st

module _ {A : Type 0} (Q : StatusOr A → World → Type 0)
    (traceless : (r : StatusOr A) → IsTraceless (Q r)) where
  end_scope-Ensures :
      (fd : FileDescriptor) (r : StatusOr (A × FileDescriptor))
      → Ensures (Q (without_fd r)) Q (end_scope fd r)
  unfolding end_scope
  end_scope-Ensures fd (ok (a, left)) =
      Ensures-bind _ _ (Quiet-Ensures _ (traceless (ok a)) (destroy_fd-Quiet left))
        λ _. record { at = λ e w q. returns q }
  end_scope-Ensures fd (err st) =
      Ensures-bind _ _ (Quiet-Ensures _ (traceless (err st)) (destroy_fd-Quiet fd))
        λ _. record { at = λ e w q. returns q }

  with_fd-Ensures :
      {P : World → Type 0} (fd : FileDescriptor) (body : E (A × FileDescriptor))
      → Ensures P (λ r. Q (without_fd r)) body
      → Ensures P Q (with_fd fd body)
  unfolding with_fd
  with_fd-Ensures fd body kb = Ensures-bind body _ kb (end_scope-Ensures fd)

IsBalanced-IsTraceless :
    (w : World) (r : StatusOr (Unit {0})) → IsTraceless (λ w'. IsCache w' × IsBalanced w r w')
IsBalanced-IsTraceless w (ok _) w' t l = l
IsBalanced-IsTraceless w (err _) w' t l = l

module _ (w : World) (cached : IsCache w) (room : (j : Key) → count_of j w.inodes + 2 < u64)
    (parent : ℕ) (name : Text) (e : Env) (live : IsLive parent w) where
  made_by-IsBalanced :
      {A : Type 0} (call : E A)
      → Quiet call
      → Ensures
          (Before w parent)
          (λ r w'. IsCache w' × IsBalanced w r w')
          (Fallible.◌>>=◌ call (λ _. reply_with_lookup parent name))
  unfolding reply_with_lookup
  made_by-IsBalanced call quiet =
      then_reply-IsBalanced w room parent reply_entry reply_entry-IsReply call name quiet

  -- Mknod, Mkdir and Symlink below an inode, on a well-formed cache with room for two references
  -- more, return and keep the cache well-formed. Where the answer is OK, the kernel was given one
  -- reference to one key, and where it is a failure none; no other count differs from what it was.
  pub making-IsBalanced :
      (mode rdev : ℕ) (target : Text)
      → Returns (λ r w'. IsCache w' × IsBalanced w r w') (mknod parent name mode rdev e w)
        × Returns (λ r w'. IsCache w' × IsBalanced w r w') (mkdir parent name mode e w)
        × Returns (λ r w'. IsCache w' × IsBalanced w r w') (symlink target parent name e w)
  unfolding mknod mkdir symlink
  making-IsBalanced mode rdev target =
      let from : Before w parent w = (live, (cached, refl)) in
      (
        (Ensures-lift_then _ _ (get_inode-Before w room parent)
              λ i. made_by-IsBalanced _ (mknodat-Quiet _ _ _ _)).at
            e w from,
        (Ensures-lift_then _ _ (get_inode-Before w room parent)
              λ i. made_by-IsBalanced _ (mkdirat-Quiet _ _ _)).at
            e w from,
        (Ensures-lift_then _ _ (get_inode-Before w room parent)
              λ i. made_by-IsBalanced _ (symlinkat-Quiet _ _ _)).at
            e w from,
      )

  -- Link of an inode below another, on a well-formed cache with room for two references more,
  -- returns and keeps the cache well-formed. Where the answer is OK, the kernel was given one
  -- reference to one key, and where it is a failure none; no other count differs from what it was.
  pub link-IsBalanced :
      (ino : ℕ)
      → IsLive ino w
      → Returns (λ r w'. IsCache w' × IsBalanced w r w') (link ino parent name e w)
  unfolding link
  link-IsBalanced ino source =
      (Ensures-lift_then {P = λ v. IsLive ino v × Before w parent v} _ _
          (Ensures-weaken _ (get_inode-IsLive ino (λ v l. l.0)) (λ i v l. l.1))
          λ i.
            Ensures-lift_then _ _ (get_inode-Before w room parent)
              λ j. made_by-IsBalanced _ (linkat-Quiet _ _ _ _ _)).at
        e w (source, (live, (cached, refl)))

  -- Create below an inode, on a well-formed cache with room for two references more, returns and
  -- keeps the cache well-formed. Where the answer is OK, the kernel was given one reference to one
  -- key, and where it is a failure none; no other count differs from what it was.
  pub create-IsBalanced :
      (mode : ℕ) (fi : FileInfo)
      → Returns (λ r w'. IsCache w' × IsBalanced w r w') (create parent name mode fi e w)
  unfolding create reply_with_create reply_create Fallible.pure Effect.pure
  create-IsBalanced mode fi =
      (Ensures-lift_then _ _ (get_inode-Before w room parent) λ i.
          Ensures-then _ _ (Quiet-Before w room parent _ (openat-Quiet _ _ _ _))
            (λ fd.
              with_fd-Ensures (λ r w'. IsCache w' × IsBalanced w r w') (IsBalanced-IsTraceless w) fd
                _
                (Ensures-then _ _
                  (reply_with_entry-IsBalanced w room parent _
                    (λ base p k n param. send-Live base p k n _ _) name)
                  (λ _. record { at = λ e' w' q. returns q }) (λ st w' q. q)))
            (λ st w' (_, (cached', same)). (cached', λ j. rw same refl))).at
        e w (live, (cached, refl))
