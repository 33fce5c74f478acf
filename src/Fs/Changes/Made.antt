-- ===== src/Fs/Changes/Made.antt =====
-- SetAttr (pafs/page_align_fs.cc) where every call succeeds: the calls that it makes.
use pagealignfs.Prelude.{ℕ, ◌≡◌, bit_or, List, [], ◌∷◌}
use pagealignfs.Prelude.Int.{ℤ}
use pagealignfs.System.{Env, Answer, Event}
use pagealignfs.System.Calls.{Call, Reply}
use pagealignfs.System.Constants.{at_empty_path, at_symlink_nofollow}
use pagealignfs.World.{World, Inode}
use pagealignfs.Status.{ok}
use pagealignfs.Effect
use pagealignfs.Effect.{call}
use pagealignfs.Effect.Fallible
use pagealignfs.Effect.Fallible.{E}
use pagealignfs.Effect.Returns.{Returns}
use pagealignfs.Syscalls.Tree.{fstatat}
use pagealignfs.Inode
use pagealignfs.Fs.Changes.{calls, push, Succeeds}

-- An inode's attributes are read, and the kernel is told what was read; on the latest call first.
abbrev attributes :
    (req : ℕ) → Inode → (timeout : ℤ) → (read told : Answer) → List Event → List Event
attributes req i timeout read told made =
    (record { call = Call.fuse_reply req (Reply.attr read.stat timeout); answer = told })
    ∷ (record {
      call = Call.fstatat i.fd.fd [] (bit_or at_empty_path at_symlink_nofollow);
      answer = read;
    })
    ∷ made

-- These calls were made, and then the attributes of the inode were read and told.
abbrev pub IsChanged : (req : ℕ) → Inode → List Call → World → World → Type 0
IsChanged req i cs w v =
    (before : List Event) × (read : Answer) × (told : Answer) × (v.trace
      ≡ attributes req i w.opts.kernel_entry_timeout read told before)
    × (calls before ≡ push cs (calls w.trace))

module _ (e : Env) (fine : Succeeds e) where
  -- The code succeeds, makes these calls, and does nothing else.
  record Makes (cs : List Call) (m : E (Unit {0})) : Type 0 where
    at :
        (w : World)
        → Returns
            (λ r w'.
              (r ≡ ok tt)
              × (w' ≡ record w { trace = w'.trace })
              × (calls w'.trace ≡ push cs (calls w.trace)))
            (m e w)
