-- ===== src/Request/DirsBuilder.antt =====
-- class FuseDirsBuilder and FuseBufCopy of pafs/fuse.h and pafs/fuse.cc.
use pagealignfs.Prelude.{
  ℕ, Bool, true, false, Option, none, some, [], ◌++◌, length, resize, ltb, leb, ◌==◌, ◌+◌, ◌%◌, ◌^◌,
  if◌then◌else◌,
}
use pagealignfs.Prelude.Int.{to_u64, negate, is_negative}
use pagealignfs.Prelude.Bytes.{Text, text}
use pagealignfs.System.{Answer}
use pagealignfs.System.Types.{EntryParam, Bufvec}
use pagealignfs.System.Calls.{Call}
use pagealignfs.Effect
use pagealignfs.Effect.{M, gets, call, abort, fault, ◌>>=◌}
use pagealignfs.Effect.Fallible
use pagealignfs.Effect.Fallible.{E, lift}
use pagealignfs.Syscalls.Errors.{errno_fail}
use pagealignfs.Request.Replies.{reply_buf}

pub record FuseDirsBuilder : Type 0 where
  pub plus : Bool
  pub maxsize : ℕ
  pub buf : Text

unfoldable pub create : Bool → ℕ → FuseDirsBuilder
create plus maxsize = record { plus = plus; maxsize = maxsize; buf = [] }

-- The lambda `add_direntry` at a buffer of `size` bytes; `req_.Get()` is undefined with no request.
unfoldable pub add_direntry_to : FuseDirsBuilder → Text → EntryParam → ℕ → ℕ → Option ℕ → M Answer
add_direntry_to b name param offset size none = fault
add_direntry_to b name param offset size (some req) =
    if b.plus
    then call (Call.fuse_add_direntry_plus req size name param offset)
    else call (Call.fuse_add_direntry req size name param.attr offset)

unfoldable pub add_direntry : FuseDirsBuilder → Text → EntryParam → ℕ → ℕ → M Answer
unfolding add_direntry_to
add_direntry b name param offset size =
    gets (λ w. w.req) >>= add_direntry_to b name param offset size

-- The entry is measured, and written only if it still fits: `false` where it does not.
unfoldable pub add_dir_entry : FuseDirsBuilder → Text → EntryParam → ℕ → M (Bool × FuseDirsBuilder)
unfolding add_direntry Effect.pure
add_dir_entry b name param offset = do
  measured ← add_direntry b name param offset 0
  let next_entry_size = to_u64 measured.rc
  if ltb b.maxsize ((next_entry_size + length b.buf) % 2 ^ 64) then Effect.pure (false, b) else (do
    added ← add_direntry b name param offset next_entry_size
    if to_u64 added.rc == next_entry_size
        then Effect.pure (true, record b { buf = b.buf ++ resize next_entry_size 0 added.bytes })
        else abort)

unfoldable pub reply : FuseDirsBuilder → E (Unit {0})
unfolding reply_buf
reply b = if leb (length b.buf) b.maxsize then reply_buf b.buf else lift abort

unfoldable pub fuse_buf_copy : Bufvec → Bufvec → (flags : ℕ) → E ℕ
unfolding errno_fail
fuse_buf_copy dst src flags = Fallible.◌>>=◌ (lift (call (Call.fuse_buf_copy dst src flags))) λ a.
    if is_negative a.rc
    then errno_fail (negate a.rc) (text "fuse_buf_copy")
    else Fallible.pure (to_u64 a.rc)
