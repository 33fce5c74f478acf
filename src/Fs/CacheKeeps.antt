-- ===== src/Fs/CacheKeeps.antt =====
-- Every handler keeps the cache of inodes well-formed.
pub mod Handlers
use pagealignfs.Prelude.{
  ℕ, ◌+◌, ◌-◌, ◌%◌, ◌<◌, ◌≡◌, refl, arith, ◌==◌, leb, Bool, Bool-cases, Option-cases, inl, inr,
  true, false, Option, none, some, if◌then◌else◌, ==_iff,
}
use pagealignfs.Prelude.Int.{ℤ}
use pagealignfs.Prelude.Bytes.{Text}
use pagealignfs.System.{Env}
use pagealignfs.System.Calls.{Call, Reply}
use pagealignfs.World.{World, Inode, Entry, Key, Directory}
use pagealignfs.Status.{StatusOr}
use pagealignfs.Effect
use pagealignfs.Effect.{M, faulted, call, modify}
use pagealignfs.Effect.Fallible
use pagealignfs.Effect.Keeps.{
  Keeps, Holds, holds, none_faulted, Holds-mono, Keeps-fail, Keeps-if, Keeps-try, Keeps-lift,
  Keeps-abort, keeps_rules,
}
use pagealignfs.Effect.Gives.{Returns-Holds}
use pagealignfs.Effect.Returns.{Returns-mono}
use pagealignfs.Syscalls.Keeps.{CallsKeep, syscall_rules}
use pagealignfs.Syscalls.Keeps.Files.{file_keeps}
use pagealignfs.InodeCache.{
  key_of, find, erase, u64, insert, ref, ref_at, unref, unref_at, set_count, erase_row,
}
use pagealignfs.InodeCache.Counts.{
  IsCache, Valid-set_refcnt, Valid-erase, Valid-mono, find-Valid, count_of, entry_at-Valid,
  find-eqb_key,
}
use pagealignfs.InodeCache.References.{insert-Sets}
use pagealignfs.Inode
use pagealignfs.Inode.{
  get_inode, set_inode, get_generation, generation_or_read, get_file_version_from_path_fd, entry_at,
}
use pagealignfs.InodeCache.Live.{Live}
use pagealignfs.Effect.Ensures.{Ensures}
use pagealignfs.Fs.Balance.Scope.{get_generation-Live}
use pagealignfs.Request.{send, send_to, clear}
use pagealignfs.Fs.Streams.{new_directory, delete_directory}
use pagealignfs.Fs.Keeps.{resource_keeps, destroy_inode-Keeps, destroy_stream-Keeps}
use pagealignfs.Fs.Keeps.Streams.{get_directory-Keeps}

pub modify-IsCache :
    (f : World → World) → ((w : World) → IsCache w → IsCache (f w)) → Keeps IsCache (modify f)
unfolding modify
modify-IsCache f k = record { at = λ e w p. holds (k w p) }

pub call-IsCache : (c : Call) → Keeps IsCache (call c)
unfolding call
call-IsCache c = record { at = λ e w p. holds p }

pub calls-IsCache : CallsKeep IsCache
calls-IsCache = record { at_call = λ c h _. call-IsCache c }

send_to-IsCache : (r : Reply) (name : Text) (req : Option ℕ) → Keeps IsCache (send_to r name req)
unfolding send_to clear
send_to-IsCache r name none = search keeps_rules
send_to-IsCache r name (some req) = search (syscall_rules, call-IsCache, modify-IsCache)

pub send-IsCache : (r : Reply) (name : Text) → Keeps IsCache (send r name)
unfolding send
send-IsCache r name = search (keeps_rules, send_to-IsCache)

pub insert-IsCache : (i : Inode) → Keeps IsCache (insert i)
insert-IsCache i = record {
  at = λ e w p. Returns-Holds (Returns-mono (insert-Sets i e w p) λ a w' sets. sets.0);
}

set_count-IsCache : (k : Key) (n : ℕ) → n < u64 → Keeps IsCache (set_count k n)
unfolding set_count
set_count-IsCache k n bound =
    modify-IsCache _ λ w (h, v). (h, Valid-set_refcnt k n w.next_address w.inodes bound v)

ref_at-IsCache : (k : Key) (n : ℕ) (found : Option Entry) → Keeps IsCache (ref_at k n found)
unfolding ref_at
ref_at-IsCache k n none = search keeps_rules
ref_at-IsCache k n (some x) =
    let bound : (x.refcnt + n) % u64 < u64 = omega arith in
    search (keeps_rules, set_count-IsCache k _ bound)

pub ref-IsCache : (ino n : ℕ) → Keeps IsCache (ref ino n)
unfolding ref
ref-IsCache ino n = search (resource_keeps, ref_at-IsCache)

erase_row-IsCache : (k : Key) (x : Entry) → Keeps IsCache (erase_row k x)
unfolding erase_row
erase_row-IsCache k x =
    let erased =
      modify-IsCache (λ w. record w { inodes = erase k w.inodes })
        (λ w (h, v). (h, Valid-erase k w.next_address w.inodes v)) in
    search (keeps_rules, erased, destroy_inode-Keeps, calls-IsCache)

pub new_directory-IsCache : (d : Directory) → Keeps IsCache (new_directory d)
unfolding new_directory modify Effect.gets Effect.◌>>=◌ Effect.pure
new_directory-IsCache d = record {
  at = λ e w (h, v). holds (omega arith, Valid-mono _ _ w.inodes (omega arith) v);
}

pub delete_directory-IsCache : (fh : ℕ) → Keeps IsCache (delete_directory fh)
unfolding delete_directory
delete_directory-IsCache fh =
    search (keeps_rules, get_directory-Keeps, destroy_stream-Keeps, modify-IsCache, calls-IsCache)
      depth 12

drop_empty-IsCache :
    (k : Key) (x : Entry) (b : Bool)
    → Keeps IsCache (if b then Fallible.lift (erase_row k x) else Fallible.pure tt)
drop_empty-IsCache k x true = Keeps-lift _ (erase_row-IsCache k x)
drop_empty-IsCache k x false = search keeps_rules

unref_some-IsCache :
    (k : Key) (n : ℕ) (x : Entry) → x.refcnt < u64 → Keeps IsCache (unref_at k n (some x))
unfolding unref_at
unref_some-IsCache k n x bound =
    let less : x.refcnt - n < u64 = omega (arith, bound) in
    let counted = Keeps-lift _ (set_count-IsCache k (x.refcnt - n) less) in
    let kept = Keeps-try _ _ counted (λ _. drop_empty-IsCache k x (x.refcnt - n == 0)) in
    Keeps-if (leb n x.refcnt) _ _ kept (Keeps-lift _ Keeps-abort)

unref_found-IsCache :
    (k : Key) (n : ℕ) (found : Option Entry) (e : Env) (w : World)
    → IsCache w
    → find k w.inodes ≡ found
    → Holds (λ _ w'. IsCache w') (unref_at k n found e w)
unfolding unref_at
unref_found-IsCache k n none e w p h = (Keeps-fail _).at e w p
unref_found-IsCache k n (some x) e w p h =
    (unref_some-IsCache k n x (find-Valid k w.next_address w.inodes x p.1 h)).at e w p

unref_of-IsCache :
    (n : ℕ) (i : Inode)
    → Keeps IsCache (
        Fallible.◌>>=◌
          (Fallible.lift (Effect.gets (λ w. find (key_of i) w.inodes)))
          (unref_at (key_of i) n))
unfolding Effect.gets Fallible.lift Fallible.◌>>=◌ Effect.◌>>=◌ Effect.pure Fallible.continue
unref_of-IsCache n i = record {
  at = λ e w p. unref_found-IsCache (key_of i) n (find (key_of i) w.inodes) e w p refl;
}

pub unref-IsCache : (ino n : ℕ) → Keeps IsCache (unref ino n)
unfolding unref
unref-IsCache ino n = search (resource_keeps, unref_of-IsCache)

pub set_root-IsCache : (i : Inode) → Keeps IsCache (set_inode 1 i)
unfolding set_inode
set_root-IsCache i = search (keeps_rules, modify-IsCache)

version-IsCache : (fd : ℤ) → Keeps IsCache (get_file_version_from_path_fd fd)
unfolding get_file_version_from_path_fd
version-IsCache fd = search (resource_keeps, file_keeps, calls-IsCache) depth 12

root_generation-IsCache :
    (i : Inode) (g : Option (StatusOr ℕ)) → Keeps IsCache (generation_or_read 1 i g)
unfolding generation_or_read
root_generation-IsCache i (some r) = search keeps_rules
root_generation-IsCache i none = search (keeps_rules, version-IsCache, set_root-IsCache) depth 12

get_root_generation-IsCache : Keeps IsCache (get_generation 1)
unfolding get_generation
get_root_generation-IsCache = search (resource_keeps, root_generation-IsCache)

-- A cached inode, with its count.
Live-now :
    (ino : ℕ) (w : World) (x : Entry)
    → IsCache w
    → entry_at ino w.inodes ≡ some x
    → Live (λ j. count_of j w.inodes) ino x.key x.refcnt w
Live-now ino w x p live =
    let (h, key, found) = entry_at-Valid ino w.next_address w.inodes x p.1 live in
    ((p, λ j. ground (arith, find-eqb_key x.key j w.inodes)), (x, live, refl, refl))

-- An operation on an inode keeps the cache, if it does so on the root and on a cached inode, and
-- goes through a dangling pointer otherwise.
pub on_inode-IsCache :
    {A : Type 0} (m : ℕ → M A)
    → Keeps IsCache (m 1)
    → ((base : Key → ℕ) (p : ℕ) (k : Key) (n : ℕ)
        → Ensures (Live base p k n) (λ _. Live base p k n) (m p))
    → ((ino : ℕ) (e : Env) (w : World)
        → (ino == 1) ≡ false
        → entry_at ino w.inodes ≡ none
        → m ino e w ≡ faulted)
    → (ino : ℕ) → Keeps IsCache (m ino)
on_inode-IsCache m at_root at_cached at_none ino = record {
  at = λ e w p. elim (Bool-cases (ino == 1)) [
    | inl root ↦ let same : ino ≡ 1 = (==_iff ino 1).0 root in rw same (at_root.at e w p)
    | inr other ↦ elim (Option-cases (entry_at ino w.inodes)) [
      | inl gone ↦ rw (at_none ino e w other gone) none_faulted
      | inr (x, live) ↦ Returns-Holds (
          Returns-mono
            ((at_cached (λ j. count_of j w.inodes) ino x.key x.refcnt).at e w
              (Live-now ino w x p live))
            (λ a w' l. l.0.0))
    ]
  ];
}

pub get_inode-faulted :
    (ino : ℕ) (e : Env) (w : World)
    → (ino == 1) ≡ false
    → entry_at ino w.inodes ≡ none
    → get_inode ino e w ≡ faulted
unfolding get_inode Inode.or_fault Effect.gets Effect.fault Effect.◌>>=◌
get_inode-faulted ino e w other gone = rw (other, gone)

get_generation-faulted :
    (ino : ℕ) (e : Env) (w : World)
    → (ino == 1) ≡ false
    → entry_at ino w.inodes ≡ none
    → get_generation ino e w ≡ faulted
unfolding get_generation Fallible.lift Fallible.◌>>=◌ Effect.◌>>=◌
get_generation-faulted ino e w other gone = rw (get_inode-faulted ino e w other gone)

pub get_generation-IsCache : (ino : ℕ) → Keeps IsCache (get_generation ino)
get_generation-IsCache =
    on_inode-IsCache get_generation get_root_generation-IsCache get_generation-Live
      get_generation-faulted
