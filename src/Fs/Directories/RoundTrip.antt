-- ===== src/Fs/Directories/RoundTrip.antt =====
-- OpenDir and then ReleaseDir of what it told the kernel (pafs/page_align_fs.cc).
use pagealignfs.Prelude.{ℕ, ◌+◌, ◌≡◌, inl, inr, ap, ◌∙◌, arith, Option, none, some, List, ◌∷◌}
use pagealignfs.System.{Env, Answer}
use pagealignfs.System.Types.{FileInfo}
use pagealignfs.System.Calls.{Call}
use pagealignfs.World.{World, Directory, Inode}
use pagealignfs.Status.{StatusOr, ok, err}
use pagealignfs.Effect
use pagealignfs.Effect.{done, gets, fault}
use pagealignfs.Effect.Fallible
use pagealignfs.Effect.Fallible.{E, lift, continue}
use pagealignfs.Effect.Returns.{Returns, returns, Returns-bind, Returns-mono}
use pagealignfs.Inode.{get_inode}
use pagealignfs.InodeCache.Reach.{IsLive}
use pagealignfs.InodeCache.Generation.{live-IsStored}
use pagealignfs.Fs.Streams.{open_dir, release_dir, find_directory, remove_directory}
use pagealignfs.Fs.Told.{latest}
use pagealignfs.Fs.Directories.{Handles-mono, HasHandles, find_directory-fresh}
use pagealignfs.Fs.Directories.Opened.{
  IsOpened, Ends, opened_directory, opened_stream, told_handle, open_dir-Ends, release_dir-closed,
}

unfoldable pub release_told : (ino : ℕ) → Option FileInfo → E (Unit {0})
release_told ino none = lift fault
release_told ino (some fi) = release_dir ino fi

-- OpenDir, and then ReleaseDir with the file information that the kernel was told.
unfoldable pub open_release : (ino : ℕ) → FileInfo → E (Unit {0})
unfolding release_told
open_release ino fi =
    Fallible.◌>>=◌ (open_dir ino fi)
      λ _. Fallible.◌>>=◌ (lift (gets (λ w. latest w.trace))) (release_told ino)

-- The stream was closed after it was told, and but for the next address nothing else of the state
-- differs; or the code has failed as OpenDir fails.
abbrev pub IsUndone : Inode → (req : ℕ) → FileInfo → World → StatusOr (Unit {0}) → World → Type 0
IsUndone i req fi w (ok _) w' =
    (dirfd : Answer) × (named : Answer) × (told : Answer) × (closed : Answer) × (w' ≡ record w {
      trace =
          (record { call = Call.closedir named.number; answer = closed })
          ∷ told_handle req fi w.next_address told
          ∷ opened_stream dirfd named
          ∷ opened_directory i dirfd
          ∷ w.trace;
      req = none;
      next_address = w.next_address + 1;
    })
IsUndone i req fi w (err st) w' = Ends i req fi w (err st) w'

opened-HasHandles :
    (i : Inode) (req : ℕ) (fi : FileInfo) (w w' : World) (dirfd named told : Answer)
    → HasHandles w
    → IsOpened i req fi w dirfd named told w'
    → HasHandles w'
opened-HasHandles i req fi w w' dirfd named told (some_left, h) (made, same) = rw same (
  omega arith,
  (
    some_left,
    omega arith,
    find_directory-fresh _ w.directories h,
    Handles-mono _ _ w.directories (omega arith) h,
  ),
)

remove_directory-first :
    (p : ℕ) (d : Directory) (ds : List (ℕ × Directory)) → remove_directory p ((p, d) ∷ ds) ≡ ds
unfolding remove_directory
remove_directory-first p d ds = ground arith

find_directory-first :
    (p : ℕ) (d : Directory) (ds : List (ℕ × Directory)) → find_directory p ((p, d) ∷ ds) ≡ some d
unfolding find_directory
find_directory-first p d ds = ground arith

module _ (ino req : ℕ) (fi : FileInfo) (i : Inode) (e : Env) (w : World) (live : IsLive ino w)
    (handles : HasHandles w) where
  released-IsUndone :
      (w' : World) (dirfd named told : Answer)
      → IsOpened i req fi w dirfd named told w'
      → Returns (IsUndone i req fi w) (release_dir ino (record fi { fh = w.next_address }) e w')
  released-IsUndone w' dirfd named told (made, same) =
      let d : Directory = record { dir = named.number } in
      let rows = ap {A = World} (λ v. v.inodes) same in
      let streams : w'.directories ≡ (w.next_address, d) ∷ w.directories =
        ap {A = World} (λ v. v.directories) same in
      let found : find_directory w.next_address w'.directories ≡ some d =
        rw streams (find_directory-first w.next_address d w.directories) in
      Returns-mono
        (release_dir-closed ino (record fi { fh = w.next_address }) d e w' (rw rows live)
          (opened-HasHandles i req fi w w' dirfd named told handles (made, same)) found made)
        λ r v (fine, (a, closed), _).
          let undone =
            closed
            ∙ (ap {A = World}
                  (λ u. record u {
                    trace = (record { call = Call.closedir d.dir; answer = a }) ∷ u.trace;
                    directories = remove_directory w.next_address u.directories;
                  })
                  same
                ∙ ap {A = List (ℕ × Directory)}
                    (λ ds. record w {
                      trace =
                          (record { call = Call.closedir d.dir; answer = a })
                          ∷ told_handle req fi w.next_address told
                          ∷ opened_stream dirfd named
                          ∷ opened_directory i dirfd
                          ∷ w.trace;
                      req = none;
                      directories = ds;
                      next_address = w.next_address + 1;
                    })
                    (remove_directory-first w.next_address d w.directories)) in
          rw fine (dirfd, named, told, a, undone)

  then_released :
      (r : StatusOr (Unit {0})) (w' : World)
      → Ends i req fi w r w'
      → Returns (IsUndone i req fi w) (
          continue r
            (λ _. Fallible.◌>>=◌ (lift (gets (λ v. latest v.trace))) (release_told ino))
            e
            w')
  unfolding continue Fallible.fail Effect.pure lift gets release_told Fallible.◌>>=◌ Effect.◌>>=◌
  then_released (ok _) w' (inl (dirfd, named, told, opened)) =
      let said : latest w'.trace ≡ some (record fi { fh = w.next_address }) =
        ap {A = World} (λ v. latest v.trace) opened.1 in
      rw said (released-IsUndone w' dirfd named told opened)
  then_released (ok _) w' (inr (st, failed, _)) = cc
  then_released (err st) w' ended = returns ended

-- OpenDir of a live inode, with a request pending and well-formed handles, and then, where it
-- returns OK, ReleaseDir with the file information that its reply told the kernel: they return.
-- Where they return OK, the stream that OpenDir made was closed, after the reply, and nothing else
-- of the state differs but that the request is answered and an address was given out; and where they
-- fail, it is OpenDir that failed.
pub open_release-round_trip :
    (ino req : ℕ) (fi : FileInfo) (e : Env) (w : World)
    → IsLive ino w
    → HasHandles w
    → w.req ≡ some req
    → Returns
        (λ r w'. (i : Inode) × (get_inode ino e w ≡ done i w) × IsUndone i req fi w r w')
        (open_release ino fi e w)
unfolding open_release Fallible.◌>>=◌ Effect.◌>>=◌
open_release-round_trip ino req fi e w live handles pending =
    let (i, stored) = live-IsStored ino w live in
    Returns-mono
      (Returns-bind (open_dir-Ends i ino fi req e w (stored.reads e) pending)
        (then_released ino req fi i e w live handles))
      λ r w' undone. (i, stored.reads e, undone)
