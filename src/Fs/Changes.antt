-- ===== src/Fs/Changes.antt =====
-- The calls that SetAttr (pafs/page_align_fs.cc) is asked for by its mask, and their order.
pub mod Made
use pagealignfs.Prelude.{
  ℕ, ◌≡◌, refl, sym, ap, ◌∙◌, Bool, Bool-cases, inl, inr, true, false, ◌||◌, bit_or, List, [], ◌∷◌,
  ◌++◌, map, some, if◌then◌else◌,
}
use pagealignfs.Prelude.Int.{ℤ, minus_one, eqb_ℤ}
use pagealignfs.System.{Env, Event}
use pagealignfs.System.Types.{Stat, ToSet}
use pagealignfs.System.Calls.{Call, Reply}
use pagealignfs.System.Constants.{at_empty_path, at_symlink_nofollow}
use pagealignfs.World.{World, Inode}
use pagealignfs.Status.{StatusOr, ok}
use pagealignfs.Effect
use pagealignfs.Effect.{done, call, gets, modify, asks}
use pagealignfs.Effect.Fallible
use pagealignfs.Effect.Fallible.{E, lift}
use pagealignfs.Effect.Returns.{Returns, returns, Returns-bind, Returns-mono}
use pagealignfs.Syscalls.Errors.{check, checked_value, errno_result}
use pagealignfs.Syscalls.Files.{fchmod, fchownat, ftruncate, futimens}
use pagealignfs.Syscalls.Tree.{fstatat}
use pagealignfs.Inode
use pagealignfs.Inode.{get_inode, get_fd, stat_fd}
use pagealignfs.InodeCache.Reach.{IsLive}
use pagealignfs.InodeCache.Generation.{live-IsStored}
use pagealignfs.Request.{send, send_to, clear}
use pagealignfs.Request.Replies.{reply_attr}
use pagealignfs.Fs.Entries.{reply_with_attrs}
use pagealignfs.Fs.Attrs.{no_id, timespec, set_mode, set_owner, set_size, set_times, set_attr_on}

abbrev pub mode_change : ℤ → Stat → ToSet → List Call
mode_change fd attr s = if s.mode then Call.fchmod fd attr.st_mode ∷ [] else []

abbrev pub size_change : ℤ → Stat → ToSet → List Call
size_change fd attr s = if s.size then Call.ftruncate fd attr.st_size ∷ [] else []

abbrev pub owner_change : ℤ → Stat → ToSet → List Call
owner_change fd attr s =
    if s.uid || s.gid
    then Call.fchownat fd [] (if s.uid then attr.st_uid else no_id)
        (if s.gid then attr.st_gid else no_id) (bit_or at_empty_path at_symlink_nofollow)
      ∷ []
    else []

abbrev pub times_change : ℤ → Stat → ToSet → List Call
times_change fd attr s =
    if s.atime || s.mtime
    then Call.futimens fd (timespec s.atime_now s.atime attr.st_atim)
        (timespec s.mtime_now s.mtime attr.st_mtim)
      ∷ []
    else []

-- The calls that a mask asks for: the mode, the owner and the group (where only one is asked for, the
-- other is left), the size, and the times.
abbrev pub changes : ℤ → Stat → ToSet → List Call
changes fd attr s =
    mode_change fd attr s
    ++ (owner_change fd attr s ++ (size_change fd attr s ++ times_change fd attr s))

abbrev pub calls : List Event → List Call
calls = map (λ ev. ev.call)

-- Calls that are made one after the other, on the latest first.
abbrev pub push : List Call → List Call → List Call
push [] made = made
push (c ∷ cs) made = push cs (c ∷ made)

push-append : (cs ds made : List Call) → push (cs ++ ds) made ≡ push ds (push cs made)
push-append [] ds made = refl
push-append (c ∷ cs) ds made = push-append cs ds (c ∷ made)

pub push-append_all :
    (xs ys zs us : List Call) (m m1 m2 m3 m4 : List Call)
    → m1 ≡ push xs m
    → m2 ≡ push ys m1
    → m3 ≡ push zs m2
    → m4 ≡ push us m3
    → m4 ≡ push (xs ++ (ys ++ (zs ++ us))) m
push-append_all xs ys zs us m m1 m2 m3 m4 h1 h2 h3 h4 =
    rw
      (
        push-append xs (ys ++ (zs ++ us)) m,
        push-append ys (zs ++ us) (push xs m),
        push-append zs us (push ys (push xs m)),
      )
      (h4 ∙ ap (push us) (h3 ∙ ap (push zs) (h2 ∙ ap (push ys) h1)))

pub push_ap :
    (f : ℤ → List Call → List Call) (made : List Call) (t t' : ℤ) (cs ds : List Call)
    → made ≡ f t cs
    → t ≡ t'
    → cs ≡ ds
    → made ≡ f t' ds
push_ap f made t t' cs ds told h k = told ∙ (ap (λ x. f x cs) h ∙ ap (f t') k)

-- No call answers -1.
abbrev pub Succeeds : Env → Type 0
Succeeds e = (h : List Event) (c : Call) → eqb_ℤ (e.answer h c).rc minus_one ≡ false
