-- ===== src/Fs/Directories/Opened.antt =====
-- OpenDir and ReleaseDir (pafs/page_align_fs.cc): what they do to the directory streams.
use pagealignfs.Prelude.{
  ℕ, ◌+◌, ◌<◌, ◌≡◌, ◌⊎◌, false, true, inl, inr, refl, List, [], ◌∷◌, arith, none, some, ◌==◌,
  bit_or, Bool-cases,
}
use pagealignfs.Prelude.Int.{minus_one, eqb_ℤ}
use pagealignfs.System.{Env, Answer, Event}
use pagealignfs.System.Types.{FileInfo, Status}
use pagealignfs.System.Calls.{Call, Reply}
use pagealignfs.System.Constants.{o_directory, o_nofollow, o_cloexec}
use pagealignfs.Prelude.Bytes.{text}
use pagealignfs.World.{World, Directory, Inode}
use pagealignfs.Status.{StatusOr, ok, err, is_ok, errno_to_status}
use pagealignfs.Effect
use pagealignfs.Effect.{done, gets, modify, call, asks}
use pagealignfs.Effect.Fallible
use pagealignfs.Effect.Fallible.{lift, log_if_error}
use pagealignfs.Effect.Returns.{Returns, returns, Returns-mono}
use pagealignfs.Syscalls.Files.{openat}
use pagealignfs.Syscalls.Streams.{fdopendir, closedir}
use pagealignfs.Syscalls.Errors.{errno_result, errno_fail, checked_value}
use pagealignfs.Resource.Stream
use pagealignfs.Inode.{get_inode, get_fd}
use pagealignfs.InodeCache.Reach.{IsLive}
use pagealignfs.Request.{send, send_to, clear}
use pagealignfs.Request.Replies.{reply_open}
use pagealignfs.Fs.Streams
use pagealignfs.Fs.Streams.{
  open_dir, release_dir, new_directory, delete_directory, get_directory, find_directory,
  remove_directory,
}
use pagealignfs.InodeCache.Generation.{live-IsStored}
use pagealignfs.Fs.Directories.{Handles, HasHandles, find_directory-deleted}

-- The directory of an inode is opened.
abbrev pub opened_directory : Inode → Answer → Event
opened_directory i dirfd = record {
  call = Call.openat (get_fd i) (text ".") (bit_or (bit_or o_directory o_nofollow) o_cloexec) 0;
  answer = dirfd;
}

-- A stream is made of the descriptor that the call before answered.
abbrev pub opened_stream : (dirfd named : Answer) → Event
opened_stream dirfd named = record { call = Call.fdopendir dirfd.rc; answer = named }

-- The request gets a file information with this handle.
abbrev pub told_handle : (req : ℕ) → FileInfo → (handle : ℕ) → Answer → Event
told_handle req fi handle told = record {
  call = Call.fuse_reply req (Reply.open_file (record fi { fh = handle }));
  answer = told;
}

-- A stream was opened, its address was replied, and the state has it under this address.
abbrev pub IsOpened :
    Inode → (req : ℕ) → FileInfo → World → (dirfd named told : Answer) → World → Type 0
IsOpened i req fi w dirfd named told w' =
    (0 < named.number)
    × (w' ≡ record w {
      trace =
          told_handle req fi w.next_address told
          ∷ opened_stream dirfd named
          ∷ opened_directory i dirfd
          ∷ w.trace;
      req = none;
      directories = (w.next_address, record { dir = named.number }) ∷ w.directories;
      next_address = w.next_address + 1;
    })

-- The directory was not opened, or no stream was made of its descriptor, and that was the last call.
abbrev pub IsFailed : Inode → World → World → Type 0
IsFailed i w w' =
    ((dirfd : Answer) × (eqb_ℤ dirfd.rc minus_one ≡ true)
      × (w' ≡ record w { trace = opened_directory i dirfd ∷ w.trace }))
    ⊎ ((dirfd : Answer) × (named : Answer) × ((named.number == 0) ≡ true)
        × (w'
            ≡ record w { trace = opened_stream dirfd named ∷ opened_directory i dirfd ∷ w.trace }))

-- How OpenDir ends.
abbrev pub Ends : Inode → (req : ℕ) → FileInfo → World → StatusOr (Unit {0}) → World → Type 0
Ends i req fi w r w' =
    ((dirfd : Answer) × (named : Answer) × (told : Answer) × IsOpened i req fi w dirfd named told
        w')
    ⊎ ((st : Status) × (r ≡ err st) × IsFailed i w w')

pub open_dir-Ends :
    (i : Inode) (ino : ℕ) (fi : FileInfo) (req : ℕ) (e : Env) (w : World)
    → get_inode ino e w ≡ done i w
    → w.req ≡ some req
    → Returns (Ends i req fi w) (open_dir ino fi e w)
unfolding open_dir openat checked_value Stream.create fdopendir errno_fail new_directory reply_open
    send send_to clear errno_result call asks gets modify lift Fallible.◌>>=◌ Effect.◌>>=◌
    Effect.pure Fallible.continue Fallible.return Fallible.pure Fallible.fail
open_dir-Ends i ino fi req e w reads pending =
    let dirfd =
      e.answer w.trace
        (Call.openat (get_fd i) (text ".") (bit_or (bit_or o_directory o_nofollow) o_cloexec) 0) in
    let named = e.answer (opened_directory i dirfd ∷ w.trace) (Call.fdopendir dirfd.rc) in
    elim (Bool-cases (eqb_ℤ dirfd.rc minus_one)) [
      | inl closed ↦
          elim (Bool-cases (is_ok (errno_to_status e dirfd.errno (text "openat")).code)) [
            | inl fine ↦ rw (reads, closed, fine) (returns (inr (_, refl, inl (_, closed, refl))))
            | inr bad ↦ rw (reads, closed, bad) (returns (inr (_, refl, inl (_, closed, refl))))
          ]
      | inr there ↦ elim (Bool-cases (named.number == 0)) [
        | inl null ↦
            elim (Bool-cases (is_ok (errno_to_status e named.errno (text "fdopendir")).code)) [
              | inl fine ↦
                  rw (reads, there, null, fine) (returns (inr (_, refl, inr (_, _, null, refl))))
              | inr bad ↦
                  rw (reads, there, null, bad) (returns (inr (_, refl, inr (_, _, null, refl))))
            ]
        | inr made ↦
            let some_stream : 0 < named.number = ground arith in
            rw (reads, there, made, pending) (returns (inl (_, _, _, (some_stream, refl))))
      ]
    ]

-- OpenDir of a live inode, with a request pending, returns. Either it has opened the directory of
-- that inode, made a stream of the descriptor that it got, and replied to the request with the next
-- address as the handle; the state has the stream under this address, and nothing else differs. Or
-- it fails, since the descriptor or the stream was refused; that was its last call, it has not
-- replied, and nothing but the trace differs.
pub open_dir-opened :
    (ino : ℕ) (fi : FileInfo) (req : ℕ) (e : Env) (w : World)
    → IsLive ino w
    → w.req ≡ some req
    → Returns
        (λ r w'. (i : Inode) × (get_inode ino e w ≡ done i w) × Ends i req fi w r w')
        (open_dir ino fi e w)
open_dir-opened ino fi req e w live pending =
    let (i, stored) = live-IsStored ino w live in
    Returns-mono (open_dir-Ends i ino fi req e w (stored.reads e) pending)
      λ r w' ends. (i, stored.reads e, ends)

find_directory-positive :
    (n p : ℕ) (d : Directory) (ds : List (ℕ × Directory))
    → Handles n ds
    → find_directory p ds ≡ some d
    → 0 < p
unfolding find_directory
find_directory-positive n p d [] h found = cc
find_directory-positive n p d ((q, x) ∷ rest) (pos, below, alone, h) found =
    ground (arith, find_directory-positive n p d rest h)

-- ReleaseDir of a live inode, with a handle that leads to a stream of the C library, returns OK: it
-- has closed that stream by its one call, the handle leads nowhere any more, and no other directory
-- stream and nothing else of the state differs.
pub release_dir-closed :
    (ino : ℕ) (fi : FileInfo) (d : Directory) (e : Env) (w : World)
    → IsLive ino w
    → HasHandles w
    → find_directory fi.fh w.directories ≡ some d
    → 0 < d.dir
    → Returns
        (λ r w'.
          (r ≡ ok tt)
          × ((a : Answer) × (w' ≡ record w {
            trace = (record { call = Call.closedir d.dir; answer = a }) ∷ w.trace;
            directories = remove_directory fi.fh w.directories;
          }))
          × (find_directory fi.fh w'.directories ≡ none))
        (release_dir ino fi e w)
unfolding release_dir delete_directory get_directory Streams.or_fault Stream.destroy closedir
    errno_result call gets modify asks lift log_if_error Fallible.◌>>=◌ Effect.◌>>=◌ Effect.pure
    Fallible.continue Fallible.return
release_dir-closed ino fi d e w live handles found made =
    let (i, stored) = live-IsStored ino w live in
    let given = find_directory-positive _ fi.fh d w.directories handles.1 found in
    let fh_set : (fi.fh == 0) ≡ false = ground arith in
    let dir_set : (d.dir == 0) ≡ false = ground arith in
    rw (stored.reads e, fh_set, found, dir_set)
      (returns (refl, (_, refl), find_directory-deleted _ fi.fh w.directories handles.1))
