-- ===== src/Fs/Handles.antt =====
-- Open and then Release of what it told the kernel (pafs/page_align_fs.cc): the descriptor goes
-- through the 64 bits of `fh`.
use pagealignfs.Prelude.{
  ℕ, ◌≡◌, refl, ◌⊎◌, inl, inr, Option, none, some, true, false, List, [], ◌∷◌, bit_and, bit_or,
  Bool-cases,
}
use pagealignfs.Prelude.Int.{IsInt, negate, minus_one, eqb_ℤ, to_i32-to_u64}
use pagealignfs.Prelude.Bytes.{text}
use pagealignfs.System.{Env, Answer, Event}
use pagealignfs.System.Types.{FileInfo, Status}
use pagealignfs.System.Calls.{Call, Reply}
use pagealignfs.System.Constants.{o_cloexec, not_o_nofollow}
use pagealignfs.World.{World, Inode}
use pagealignfs.Status.{StatusOr, err, is_ok, errno_to_status}
use pagealignfs.Effect
use pagealignfs.Effect.{done, call, gets, modify, asks, fault}
use pagealignfs.Effect.Fallible
use pagealignfs.Effect.Fallible.{lift, E, log_if_error}
use pagealignfs.Effect.Returns.{Returns, returns, Returns-mono}
use pagealignfs.Syscalls.Errors.{errno_result, errno_fail, checked_value}
use pagealignfs.Syscalls.Files.{open_file, close}
use pagealignfs.Resource.Descriptor
use pagealignfs.Resource.Descriptor.{with_fd, end_scope, release}
use pagealignfs.Inode.{get_inode, get_fd, proc_path}
use pagealignfs.InodeCache.Reach.{IsLive}
use pagealignfs.InodeCache.Generation.{live-IsStored}
use pagealignfs.Request.{send, send_to, clear}
use pagealignfs.Request.Replies.{reply_open}
use pagealignfs.Fs.Files.{opened, open_ino, release_file}
use pagealignfs.Fs.Told.{latest}

unfoldable pub release_told : (ino : ℕ) → Option FileInfo → E (Unit {0})
release_told ino none = lift fault
release_told ino (some fi) = release_file ino fi

-- Open, and then Release with the file information that the kernel was told.
unfoldable pub open_release : (ino : ℕ) → FileInfo → E (Unit {0})
unfolding release_told
open_release ino fi =
    Fallible.◌>>=◌ (open_ino ino fi)
      λ _. Fallible.◌>>=◌ (lift (gets (λ w. latest w.trace))) (release_told ino)

-- The call by which Open gets the descriptor.
abbrev pub open_call : Env → Inode → FileInfo → Call
open_call e i fi =
    Call.open_file (e.str_cat (text "/proc/self/fd/" ∷ e.decimal (get_fd i) ∷ []))
      (bit_and (bit_or fi.flags o_cloexec) not_o_nofollow) 0

-- Nothing was opened; or the request was told the descriptor, and then it was closed.
abbrev pub IsClosed :
    Env → Inode → (req : ℕ) → FileInfo → World → StatusOr (Unit {0}) → World → Type 0
IsClosed e i req fi w r w' =
    (fd : Answer) × (((st : Status) × (r ≡ err st)
        × (eqb_ℤ fd.rc minus_one ≡ true)
        × (w' ≡ record w { trace = (record { call = open_call e i fi; answer = fd }) ∷ w.trace }))
      ⊎ ((told : Answer) × (closed : Answer) × (eqb_ℤ fd.rc minus_one ≡ false)
          × (w' ≡ record w {
            trace =
                (record { call = Call.close fd.rc; answer = closed })
                ∷ (record {
                  call = Call.fuse_reply req (Reply.open_file (opened fi (record { fd = fd.rc })));
                  answer = told;
                })
                ∷ (record { call = open_call e i fi; answer = fd })
                ∷ w.trace;
            req = none;
          })))

module _ (ino req : ℕ) (fi : FileInfo) (i : Inode) (e : Env) (w : World) (live : IsLive ino w)
    (int : IsInt (e.answer w.trace (open_call e i fi)).rc) (reads : get_inode ino e w ≡ done i w)
    (pending : w.req ≡ some req) where
  open_release-IsClosed : Returns (IsClosed e i req fi w) (open_release ino fi e w)
  unfolding open_release release_told open_ino proc_path open_file checked_value errno_fail with_fd
      end_scope release Descriptor.destroy log_if_error close reply_open release_file send send_to
      clear errno_result opened call gets modify asks lift Fallible.◌>>=◌ Effect.◌>>=◌ Effect.pure
      Fallible.continue Fallible.return Fallible.pure Fallible.fail
  open_release-IsClosed =
      let fd = e.answer w.trace (open_call e i fi) in
      let t1 : List Event = (record { call = open_call e i fi; answer = fd }) ∷ w.trace in
      let told_call = Call.fuse_reply req (Reply.open_file (opened fi (record { fd = fd.rc }))) in
      let told = e.answer t1 told_call in
      let t2 : List Event = (record { call = told_call; answer = told }) ∷ t1 in
      let again = live-IsStored ino (record w { trace = t2; req = none }) live in
      let same = to_i32-to_u64 fd.rc int in
      elim (Bool-cases (eqb_ℤ fd.rc minus_one)) [
        | inl refused ↦ elim (Bool-cases (is_ok (errno_to_status e fd.errno (text "open")).code)) [
          | inl fine ↦ rw (reads, refused, fine) (returns (_, inl (_, refl, refused, refl)))
          | inr bad ↦ rw (reads, refused, bad) (returns (_, inl (_, refl, refused, refl)))
        ]
        | inr there ↦
            elim (Bool-cases
              (is_ok (errno_to_status e (negate told.rc) (text "fuse_reply_open")).code)) [
                | inl fine ↦
                    rw (reads, there, pending, fine, again.1.reads e, same)
                      (returns (_, inr (_, _, there, refl)))
                | inr bad ↦
                    rw (reads, there, pending, bad, there) (returns (_, inr (_, _, there, refl)))
              ]
      ]

-- Open of a live inode, with a request pending, and then Release with the file information that its
-- reply told the kernel, where the C library answers an int to the open: they return. Either the
-- open was refused, and they fail with nothing but that call made; or the request was told, in the
-- 64 bits of `fh`, the descriptor that the open gave, and then this descriptor was closed, once, by
-- Release or, where the reply fails, by Open. Nothing else of the state differs.
pub open_ino-released :
    (ino req : ℕ) (fi : FileInfo) (e : Env) (w : World)
    → IsLive ino w
    → ((i : Inode) → IsInt (e.answer w.trace (open_call e i fi)).rc)
    → w.req ≡ some req
    → Returns
        (λ r w'. (i : Inode) × (get_inode ino e w ≡ done i w) × IsClosed e i req fi w r w')
        (open_release ino fi e w)
open_ino-released ino req fi e w live int pending =
    let (i, stored) = live-IsStored ino w live in
    Returns-mono (open_release-IsClosed ino req fi i e w live (int i) (stored.reads e) pending)
      λ r w' closed. (i, stored.reads e, closed)
