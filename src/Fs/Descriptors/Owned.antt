-- ===== src/Fs/Descriptors/Owned.antt =====
-- What opens, closes and hands over a descriptor: the wrappers of the calls, and the scope of a
-- FileDescriptor.
use pagealignfs.Prelude.{
  ℕ, Bool-cases, true, false, not, inl, inr, ◌≡◌, refl, arith, ◌+◌, ◌∷◌, length, if◌then◌else◌,
}
use pagealignfs.Prelude.Int.{ℤ, minus_one, eqb_ℤ}
use pagealignfs.Prelude.Bytes.{Text}
use pagealignfs.System.{Env, Answer}
use pagealignfs.System.Calls.{Call}
use pagealignfs.World.{World, FileDescriptor, Inode}
use pagealignfs.System.Types.{Status}
use pagealignfs.Status.{StatusOr, ok, err, of_status, is_ok, errno_to_status}
use pagealignfs.Effect
use pagealignfs.Effect.{M, call}
use pagealignfs.Effect.Fallible
use pagealignfs.Effect.Fallible.{E, lift, log_if_error}
use pagealignfs.Effect.Keeps.{Keeps, Holds, holds, keeps_rules}
use pagealignfs.Effect.Gives.{Gives, Gives-then, Keeps-Gives, Holds-after}
use pagealignfs.Syscalls.Errors.{errno_fail, checked_value}
use pagealignfs.Syscalls.Keeps.{syscall_rules, errno_result-Keeps}
use pagealignfs.Syscalls.Files.{close, open_file, openat, ioctl}
use pagealignfs.Syscalls.Tree.{fstatat}
use pagealignfs.Inode
use pagealignfs.Inode.{proc_path, stat_fd, get_file_version_from_path_fd}
use pagealignfs.Resource.Descriptor
use pagealignfs.Resource.Descriptor.{with_fd, end_scope}
use pagealignfs.Fs.Descriptors.{is_open, is_close, opens, closes, HaveFds, HasFd, Accounted}

-- the world after a call
abbrev after_call : Env → World → Call → World
after_call e w x = record w { trace = (record { call = x; answer = e.answer w.trace x }) ∷ w.trace }

module _ (a c : ℕ) where
  -- A call that neither opens nor closes.
  pub call-Accounted :
      (d : ℕ) (x : Call)
      → ((rc : ℤ) → is_open x rc ≡ false)
      → is_close x ≡ false
      → Keeps (Accounted a c d) (call x)
  unfolding call
  call-Accounted d x none_opened none_closed = record {
    at = λ e w (fds, account).
        let same = none_opened (e.answer w.trace x).rc in
        holds (fds, rw (same, none_closed) (omega (arith, account)));
  }

  -- A descriptor more is in hand where it was opened.
  abbrev pub Opened : ℕ → StatusOr FileDescriptor → World → Type 0
  Opened d (ok fd) w = (eqb_ℤ fd.fd minus_one ≡ false) × Accounted a c (d + 1) w
  Opened d (err st) w = Accounted a c d w

  failed-Opened : (d : ℕ) (st : Status) (w : World) → Accounted a c d w → Opened d (of_status st) w
  failed-Opened d st w p = elim (Bool-cases (is_ok st.code)) [
    | inl same ↦ rw same p
    | inr other ↦ rw other p
  ]

  -- What becomes of the answer: `before` is the count of the descriptors opened before the call.
  answered-Opened :
      (d before : ℕ) (ans : Answer) (name : Text) (e : Env) (w : World)
      → HaveFds w.inodes
      → opens w.trace ≡ (if not (eqb_ℤ ans.rc minus_one) then 1 else 0) + before
      → closes w.trace + length w.inodes + d + a ≡ before + c
      → Holds (Opened d) (checked_value ans name (record { fd = ans.rc }) e w)
  unfolding checked_value errno_fail lift Fallible.◌>>=◌ Effect.◌>>=◌ Effect.pure Fallible.pure
      Fallible.continue Fallible.return Effect.asks
  answered-Opened d before ans name e w fds opened account =
      elim (Bool-cases (eqb_ℤ ans.rc minus_one)) [
        | inl failed ↦
            let same : opens w.trace ≡ before = ground (arith, opened, failed) in
            rw failed (
              holds (
                failed-Opened d (errno_to_status e ans.errno name) w
                  (fds, omega (arith, account, same))))
        | inr fine ↦
            let more : opens w.trace ≡ 1 + before = ground (arith, opened, fine) in
            rw fine (holds (fine, (fds, omega (arith, account, more))))
      ]

  pub openat-Opened :
      (d : ℕ) (dirfd : ℤ) (path : Text) (flags mode : ℕ)
      → Gives (Accounted a c d) (Opened d) (openat dirfd path flags mode)
  unfolding openat call lift Fallible.◌>>=◌ Effect.◌>>=◌ Effect.pure Fallible.continue
  openat-Opened d dirfd path flags mode = record {
    at = λ e w (fds, account).
        let x = Call.openat dirfd path flags mode in
        answered-Opened d (opens w.trace) (e.answer w.trace x) _ e (after_call e w x) fds refl
          (omega (arith, account));
  }

  pub open_file-Opened :
      (d : ℕ) (path : Text) (flags mode : ℕ)
      → Gives (Accounted a c d) (Opened d) (open_file path flags mode)
  unfolding open_file call lift Fallible.◌>>=◌ Effect.◌>>=◌ Effect.pure Fallible.continue
  open_file-Opened d path flags mode = record {
    at = λ e w (fds, account).
        let x = Call.open_file path flags mode in
        answered-Opened d (opens w.trace) (e.answer w.trace x) _ e (after_call e w x) fds refl
          (omega (arith, account));
  }

  close-Accounted :
      (d : ℕ) (fd : FileDescriptor)
      → Gives (Accounted a c (d + 1)) (λ _. Accounted a c d) (close fd)
  unfolding close call lift Fallible.◌>>=◌ Effect.◌>>=◌ Effect.pure Fallible.continue
  close-Accounted d fd = record {
    at = λ e w (fds, account). (errno_result-Keeps _ _).at e _ (fds, omega (arith, account));
  }

  -- The destructor of a descriptor that is in hand.
  pub destroy-Accounted :
      (d : ℕ) (fd : FileDescriptor)
      → eqb_ℤ fd.fd minus_one ≡ false
      → Gives (Accounted a c (d + 1)) (λ _. Accounted a c d) (Descriptor.destroy fd)
  unfolding Descriptor.destroy log_if_error Effect.◌>>=◌ Effect.pure
  destroy-Accounted d fd there = record {
    at = λ e w p. rw there (Holds-after ((close-Accounted d fd).at e w p) λ _ w' q. holds q);
  }

  -- A scope that ends with its descriptor still in hand.
  abbrev pub Kept : {A : Type 0} → ℕ → StatusOr (A × FileDescriptor) → World → Type 0
  Kept d (ok (x, left)) w = (eqb_ℤ left.fd minus_one ≡ false) × Accounted a c (d + 1) w
  Kept d (err st) w = Accounted a c (d + 1) w

  pub end_scope-Accounted :
      {A : Type 0} (d : ℕ) (fd : FileDescriptor) (r : StatusOr (A × FileDescriptor))
      → eqb_ℤ fd.fd minus_one ≡ false
      → Gives (Kept d r) (λ _. Accounted a c d) (end_scope fd r)
  unfolding end_scope Effect.◌>>=◌ Effect.pure
  end_scope-Accounted d fd (ok (x, left)) there = record {
    at = λ e w (has, p). Holds-after ((destroy-Accounted d left has).at e w p) λ _ w' q. holds q;
  }
  end_scope-Accounted d fd (err st) there = record {
    at = λ e w p. Holds-after ((destroy-Accounted d fd there).at e w p) λ _ w' q. holds q;
  }

  -- A scope that has handed its descriptor to an inode.
  abbrev Moved : ℕ → StatusOr (Inode × FileDescriptor) → World → Type 0
  Moved d (ok (i, left)) w = (eqb_ℤ left.fd minus_one ≡ true) × HasFd i × Accounted a c (d + 1) w
  Moved d (err st) w = Accounted a c (d + 1) w

  -- An inode was made that owns a descriptor.
  abbrev pub Made : ℕ → StatusOr Inode → World → Type 0
  Made d (ok i) w = HasFd i × Accounted a c (d + 1) w
  Made d (err st) w = Accounted a c d w

  end_scope-Made :
      (d : ℕ) (fd : FileDescriptor) (r : StatusOr (Inode × FileDescriptor))
      → eqb_ℤ fd.fd minus_one ≡ false
      → Gives (Moved d r) (Made d) (end_scope fd r)
  unfolding end_scope Descriptor.destroy Effect.◌>>=◌ Effect.pure
  end_scope-Made d fd (ok (i, left)) there = record {
    at = λ e w (gone, has, p). rw gone (holds (has, p));
  }
  end_scope-Made d fd (err st) there = record {
    at = λ e w p. Holds-after ((destroy-Accounted d fd there).at e w p) λ _ w' q. holds q;
  }

  pub stat_fd-Accounted : (d : ℕ) (fd : ℤ) → Keeps (Accounted a c d) (stat_fd fd)
  unfolding stat_fd fstatat
  stat_fd-Accounted d fd =
      search (syscall_rules, call-Accounted d (Call.fstatat _ _ _) (λ rc. refl) refl)

  -- Inode::Create
  pub create-Made :
      (d : ℕ) (path : Text) (parent_fd : ℤ)
      → Gives (Accounted a c d) (Made d) (Inode.create path parent_fd)
  unfolding Inode.create with_fd Descriptor.move_construct Descriptor.move_assign Fallible.pure
      Effect.pure
  create-Made d path parent_fd =
      Gives-then _ _ (openat-Opened d _ _ _ _)
        (λ fd. record {
          at = λ e w (there, p).
              Holds-after
                ((Gives-then {R = Moved d} _ _ (Keeps-Gives _ (stat_fd-Accounted (d + 1) _))
                    (λ st. record { at = λ e w' q. holds {a = ok (_, _)} (refl, there, q) })
                    (λ st w' q. q)).at
                  e w p)
                λ r w' q. (end_scope-Made d fd r there).at e w' q;
        })
        (λ st w p. p)

  -- Inode::GetGeneration's file is closed again.
  pub version-Accounted :
      (d : ℕ) (fd : ℤ) → Keeps (Accounted a c d) (get_file_version_from_path_fd fd)
  unfolding get_file_version_from_path_fd proc_path with_fd ioctl Fallible.pure Effect.pure
  version-Accounted d fd = record {
    at = λ e w p.
        (Gives-then {R = λ _. Accounted a c d} _ _ (Keeps-Gives _ (search keeps_rules))
            (λ path.
              Gives-then _ _ (open_file-Opened d _ _ _)
                (λ myfd. record {
                  at = λ e' w' (there, q).
                      Holds-after
                        ((Gives-then {R = Kept d} _ _
                            (Keeps-Gives _ (
                              search (
                                syscall_rules,
                                call-Accounted (d + 1) (Call.ioctl _ _) (λ rc. refl) refl,
                              )))
                            (λ ans. record { at = λ _ v k. holds {a = ok (_, myfd)} (there, k) })
                            (λ st v k. k)).at
                          e' w' q)
                        λ r v k. (end_scope-Accounted d myfd r there).at e' v k;
                })
                (λ st v k. k))
            (λ st v k. k)).at
          e w p;
  }
