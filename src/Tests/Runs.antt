-- ===== src/Tests/Runs.antt =====
-- Runs of handlers from a freshly mounted state: how they end, and what they leave.
use pagealignfs.Prelude.{ℕ, ◌≡◌, refl, Option, none, some, map, List, [], ◌∷◌}
use pagealignfs.Prelude.Bytes.{text}
use pagealignfs.Effect.{Run, done, aborted, faulted, diverged}
use pagealignfs.Fs.Entries.{lookup}
use pagealignfs.Tests.Sample.{sample, mounted}

-- The counts of the rows, where the run returned.
abbrev counts : {A : Type 0} → Run A → Option (List ℕ)
counts (done a w) = some (map (λ x. x.refcnt) w.inodes)
counts _ = none

-- A lookup that succeeds leaves one reference.
lookup-counts :
    counts (lookup 1 (text "a") sample (record mounted { req = some 11 })) ≡ some (1 ∷ [])
unfolding lookup pagealignfs.Effect.Fallible.◌>>=◌ pagealignfs.Effect.Fallible.lift
    pagealignfs.Effect.Fallible.pure pagealignfs.Effect.Fallible.finally
    pagealignfs.Effect.Fallible.attempt pagealignfs.Effect.Fallible.log_if_error
    pagealignfs.Effect.Fallible.return pagealignfs.Effect.Fallible.unless_ok pagealignfs.Effect.gets
    pagealignfs.Effect.call pagealignfs.Effect.modify pagealignfs.Effect.asks
    pagealignfs.Syscalls.Files.close pagealignfs.Request.Replies.reply_entry
    pagealignfs.Request.send
lookup-counts = refl
