-- ===== src/Request/Fits.antt =====
-- FuseDirsBuilder never holds more than the kernel asked for, so the CHECK of its Reply holds.
use pagealignfs.Prelude.{
  ℕ, ◌+◌, ◌^◌, ◌%◌, ◌<◌, ◌≤◌, ◌≡◌, refl, arith, Bool, Bool-cases, inl, inr, true, false, Option,
  none, some, List, ◌==◌, ltb, length, length-append, length-resize, resize, if◌then◌else◌, ◌++◌,
  ◌∷◌,
}
use pagealignfs.Prelude.Int.{to_u64}
use pagealignfs.Prelude.Bytes.{Text}
use pagealignfs.System.{Env, Event, Answer}
use pagealignfs.System.Types.{EntryParam}
use pagealignfs.System.Calls.{Call}
use pagealignfs.World.{World}
use pagealignfs.Effect
use pagealignfs.Effect.{M, Run, done, call, gets, abort, fault, and_then}
use pagealignfs.Effect.Keeps.{Holds}
use pagealignfs.Effect.Returns.{Quiet-call}
use pagealignfs.Effect.Finishes.{
  Ends, ends, at_abort, at_fault, Ends-bind, Ends-Holds, Finishes, Quiet-Finishes, finishes_rules,
}
use pagealignfs.Request.DirsBuilder.{FuseDirsBuilder, add_direntry, add_direntry_to, add_dir_entry}

-- The buffer is no longer than asked for.
abbrev pub Fits : FuseDirsBuilder → Type 0
Fits b = length b.buf ≤ b.maxsize

-- What libfuse measures for the entry, added to what is there, does not overflow 64 bits.
pub record IsMeasured (e : Env) (name : Text) (param : EntryParam) (offset used : ℕ) : Type 0 where
  pub small :
      (h : List Event) (req : ℕ)
      → to_u64 (e.answer h (Call.fuse_add_direntry req 0 name param.attr offset)).rc + used < 2 ^ 64
  pub small_plus :
      (h : List Event) (req : ℕ)
      → to_u64 (e.answer h (Call.fuse_add_direntry_plus req 0 name param offset)).rc + used < 2 ^ 64

-- What AddDirEntry promises: an entry that has no room leaves the builder as it is.
abbrev pub Added : FuseDirsBuilder → Bool × FuseDirsBuilder → Type 0
Added b (added, b') = Fits b' × (b'.maxsize ≡ b.maxsize) × ((added ≡ false) → b' ≡ b)

-- libfuse never measures an entry as empty.
pub record TakesRoom (e : Env) (name : Text) (param : EntryParam) (offset : ℕ) : Type 0 where
  pub at_small :
      (h : List Event) (req : ℕ)
      → 0 < to_u64 (e.answer h (Call.fuse_add_direntry req 0 name param.attr offset)).rc
  pub at_plus :
      (h : List Event) (req : ℕ)
      → 0 < to_u64 (e.answer h (Call.fuse_add_direntry_plus req 0 name param offset)).rc

-- Where an entry was written, the buffer is longer, if the condition holds.
abbrev pub Written : Type 0 → FuseDirsBuilder → Bool × FuseDirsBuilder → Type 0
Written c b (added, b') = Added b (added, b') × (c → (added ≡ true) → length b.buf < length b'.buf)

-- the world after a call
abbrev after_call : Env → World → Call → World
after_call e w c = record w { trace = (record { call = c; answer = e.answer w.trace c }) ∷ w.trace }

call_either :
    {B : Type 0} {Q : B → World → Type 0} (p : Bool) (c d : Call) (e : Env) (w : World)
    (f : Answer → World → Run B)
    → Ends Q (f (e.answer w.trace c) (after_call e w c))
    → Ends Q (f (e.answer w.trace d) (after_call e w d))
    → Ends Q (and_then ((if p then call c else call d) e w) f)
unfolding call
call_either true c d e w f kc kd = kc
call_either false c d e w f kc kd = kd

add_direntry_to-Finishes :
    (b : FuseDirsBuilder) (name : Text) (param : EntryParam) (offset size : ℕ) (req : Option ℕ)
    → Finishes (add_direntry_to b name param offset size req)
unfolding add_direntry_to
add_direntry_to-Finishes b name param offset size none = search finishes_rules
add_direntry_to-Finishes b name param offset size (some req) =
    search (finishes_rules, Quiet-Finishes, Quiet-call)

add_direntry-Finishes :
    (b : FuseDirsBuilder) (name : Text) (param : EntryParam) (offset size : ℕ)
    → Finishes (add_direntry b name param offset size)
unfolding add_direntry
add_direntry-Finishes b name param offset size = search (finishes_rules, add_direntry_to-Finishes)

module _ (b : FuseDirsBuilder) (name : Text) (param : EntryParam) (offset : ℕ) (fits : Fits b)
    (e : Env) where
  module _ {c : Type 0} (n : ℕ) (w : World) (takes_room : c → 0 < n) where
    -- The entry is written where it was measured to fit.
    direntry-Fits :
        (added : Answer)
        → n + length b.buf ≤ b.maxsize
        → Ends
            (λ r' _. Written c b r')
            ((if to_u64 added.rc == n
                then Effect.pure (true, record b { buf = b.buf ++ resize n 0 added.bytes })
                else abort)
              e w)
    unfolding Effect.pure abort
    direntry-Fits added room = elim (Bool-cases (to_u64 added.rc == n)) [
      | inl same ↦
          let longer = length-append b.buf (resize n 0 added.bytes) in
          let written = length-resize n 0 added.bytes in
          rw same (
            ends (
              (omega (arith, longer, written), refl, λ h. cc),
              λ h _. omega (arith, longer, written, takes_room h),
            ))
      | inr other ↦ rw other at_abort
    ]

  measured-Fits :
      {c : Type 0} (n : ℕ) (w : World)
      → (c → 0 < n)
      → n + length b.buf < 2 ^ 64
      → Ends
          (λ r' _. Written c b r')
          ((if ltb b.maxsize ((n + length b.buf) % 2 ^ 64)
              then Effect.pure (false, b)
              else Effect.◌>>=◌ (add_direntry b name param offset n) λ added.
                if to_u64 added.rc == n
                then Effect.pure (true, record b { buf = b.buf ++ resize n 0 added.bytes })
                else abort)
            e w)
  unfolding Effect.pure Effect.◌>>=◌
  measured-Fits n w takes_room small =
      elim (Bool-cases (ltb b.maxsize ((n + length b.buf) % 2 ^ 64))) [
        | inl full ↦ rw full (ends ((fits, refl, λ h. refl), λ h same. cc))
        | inr room ↦
            let enough : n + length b.buf ≤ b.maxsize = ground arith in
            rw room (
              Ends-bind ((add_direntry-Finishes b name param offset n).at e w)
                λ added w' _. direntry-Fits n w' takes_room added enough)
      ]

  add_dir_entry_to-Written :
      (req : Option ℕ) (w : World)
      → w.req ≡ req
      → IsMeasured e name param offset (length b.buf)
      → Ends
          (λ r _. Written (TakesRoom e name param offset) b r)
          (add_dir_entry b name param offset e w)
  unfolding add_dir_entry add_direntry add_direntry_to gets fault call Effect.◌>>=◌
  add_dir_entry_to-Written none w h m = rw h at_fault
  add_dir_entry_to-Written (some req) w h m = rw h (
      call_either b.plus _ _ e (record w { req = some req }) _
        (measured-Fits _ _ (λ t. t.at_plus w.trace req) (m.small_plus w.trace req))
        (measured-Fits _ _ (λ t. t.at_small w.trace req) (m.small w.trace req)))

  -- AddDirEntry comes to an end, and where it writes an entry, the buffer grows.
  pub add_dir_entry-Written :
      IsMeasured e name param offset (length b.buf)
      → (w : World)
      → Ends
          (λ r _. Written (TakesRoom e name param offset) b r)
          (add_dir_entry b name param offset e w)
  add_dir_entry-Written m w = add_dir_entry_to-Written w.req w refl m

  -- AddDirEntry keeps the buffer within the size that was asked for, if what libfuse measures does
  -- not overflow 64 bits, and leaves the builder as it is where it says that there is no room.
  pub add_dir_entry-Fits :
      IsMeasured e name param offset (length b.buf)
      → (w : World) → Holds (λ r _. Added b r) (add_dir_entry b name param offset e w)
  add_dir_entry-Fits m w = Ends-Holds (add_dir_entry-Written m w) λ r _ (added, _). added
