-- ===== src/Tests/Replies.antt =====
-- The theorems on replies at concrete inputs.
use pagealignfs.Prelude.{◌≡◌, ◌≢◌, none, ◌∷◌, refl, arith, [], some, false, inl}
use pagealignfs.Prelude.Int.{pos, minus_one}
use pagealignfs.Prelude.Bytes.{text}
use pagealignfs.System.{Env, Answer}
use pagealignfs.System.Types.{StatusCode, FileInfo, Flock, EntryParam, Bufvec}
use pagealignfs.System.Calls.{Call, Reply}
use pagealignfs.Status.Laws.{StatusLaws}
use pagealignfs.Effect.Keeps.{Holds}
use pagealignfs.Effect.Returns.{Returns}
use pagealignfs.Request.DirsBuilder.{FuseDirsBuilder, add_dir_entry}
use pagealignfs.Request.Fits.{Added, IsMeasured, add_dir_entry-Fits}
use pagealignfs.Callbacks.{run_callback}
use pagealignfs.Callbacks.Table.{Callback}
use pagealignfs.Effect.{aborted}
use pagealignfs.Callbacks.GetXAttr.{getxattr-aborted}
use pagealignfs.Callbacks.WriteBuf.{copy_call, write_buf-silent}
use pagealignfs.Callbacks.SetLk.{lock_call, setlk-refused}
use pagealignfs.Tests.Sample.{sample, sample_laws, mounted, a_directory}

abbrev no_flags : FileInfo
no_flags = record { flags = 0; fh = 0; noflush = false; parallel_direct_writes = false; others = 0 }

abbrev a_lock : Flock
a_lock = record { l_type = 1; others = 0 }

-- A kernel that refuses every call with EBADF.
abbrev no_locks : Env
no_locks = record sample {
  answer = λ h c. record (sample.answer h c) { rc = minus_one; errno = pos 9 };
}

no_locks-laws : StatusLaws no_locks
no_locks-laws = record {
  code-set_payload = sample_laws.code-set_payload;
  get_payload-set_payload = sample_laws.get_payload-set_payload;
  get_payload-nil = sample_laws.get_payload-nil;
  str_format-unknown = sample_laws.str_format-unknown;
  simple_atoi-decimal = sample_laws.simple_atoi-decimal;
  consume_prefix-append = sample_laws.consume_prefix-append;
  consume_suffix-append = sample_laws.consume_suffix-append;
  strerrorname_np-known = sample_laws.strerrorname_np-known;
}

ebadf-fails : (no_locks.errno_to_status (pos 9) (text "fcntl")).code ≢ StatusCode.k_ok
ebadf-fails = λ h. cc

ebadf-errno : pos 9 ≢ pos 0
ebadf-errno = λ h. cc

setlk-refused_example :
    Returns
      (λ _ w.
        (refused : Answer) × (replied : Answer) × (w ≡ record mounted {
          trace =
              (record { call = Call.fuse_reply 11 (Reply.err (pos 9)); answer = replied })
              ∷ (record { call = lock_call mounted.root false a_lock; answer = refused })
              ∷ mounted.trace;
          req = none;
        }))
      (run_callback 11 (Callback.setlk 1 (some no_flags) a_lock false) no_locks mounted)
unfolding pagealignfs.Inode.get_inode pagealignfs.Effect.gets
setlk-refused_example =
    setlk-refused 11 1 no_flags a_lock false mounted.root (pos 9) no_locks mounted no_locks-laws
      refl refl refl ebadf-fails ebadf-errno (refl, refl) (inl refl)

abbrev empty_listing : FuseDirsBuilder
empty_listing = record { plus = false; maxsize = 4096; buf = [] }

abbrev a_param : EntryParam
a_param = record {
  ino = 4096;
  generation = 9;
  attr = a_directory;
  attr_timeout = pos 1;
  entry_timeout = pos 1;
}

a_name-IsMeasured : IsMeasured sample (text "a") a_param 1 0
a_name-IsMeasured = record { small = λ h req. omega arith; small_plus = λ h req. omega arith }

add_dir_entry-Fits_example :
    Holds
      (λ r _. Added empty_listing r)
      (add_dir_entry empty_listing (text "a") a_param 1 sample (record mounted { req = some 11 }))
add_dir_entry-Fits_example =
    add_dir_entry-Fits empty_listing (text "a") a_param 1 (omega arith) sample a_name-IsMeasured
      (record mounted { req = some 11 })

-- A kernel that refuses every call.
abbrev refusing : Env
refusing = record sample { answer = λ h c. record (sample.answer h c) { rc = minus_one } }

abbrev some_bytes : Bufvec
some_bytes = record { size = 2; is_fd_seek = false; fd = minus_one; pos = 0; bytes = text "ab" }

write_buf-silent_example :
    Returns
      (λ _ w.
        (failed : Answer) × (replied : Answer) × (w.trace
          ≡ (record { call = Call.fuse_reply 11 Reply.none; answer = replied })
            ∷ (record { call = copy_call some_bytes 0 no_flags; answer = failed })
            ∷ mounted.trace))
      (run_callback 11 (Callback.write_buf 1 some_bytes 0 no_flags) refusing mounted)
write_buf-silent_example =
    write_buf-silent 11 1 some_bytes 0 no_flags refusing mounted (inl refl) refl

-- A kernel that answers 3 to every call.
abbrev three_bytes : Env
three_bytes = record sample { answer = λ h c. record (sample.answer h c) { rc = pos 3 } }

getxattr-aborted_example :
    run_callback 11 (Callback.getxattr 1 (text "user.a") 0) three_bytes mounted ≡ aborted
getxattr-aborted_example =
    getxattr-aborted 11 1 (text "user.a") 3 three_bytes mounted (inl refl) (omega arith)
      (omega arith) (λ path. refl)
