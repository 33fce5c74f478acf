-- ===== src/Tests/Lookups.antt =====
-- The theorems on lookups at concrete inputs.
use pagealignfs.Prelude.{
  ◌+◌, List, [], ◌∷◌, length, ◌-◌, ◌≡◌, none, ◌<◌, arith, inl, inr, refl, false,
}
use pagealignfs.Prelude.Bytes.{text}
use pagealignfs.World.{Key}
use pagealignfs.Effect.Keeps.{Holds}
use pagealignfs.Effect.Returns.{Returns}
use pagealignfs.System.Types.{FileInfo, ForgetData}
use pagealignfs.Status.{ok}
use pagealignfs.InodeCache.{u64, unref}
use pagealignfs.Fs.Descriptors.{HaveFds, opens, closes}
use pagealignfs.Fs.Descriptors.Lookups.{lookup-no_leak, unref-no_leak}
use pagealignfs.InodeCache.Counts.{count_of, IsCache}
use pagealignfs.Fs.Entries.{lookup, forget_multi}
use pagealignfs.Fs.Batch.{forget_each, forget_multi-each}
use pagealignfs.Fs.Names.{mknod, mkdir, symlink, link}
use pagealignfs.Fs.Files.{create}
use pagealignfs.Fs.Balance.{IsBalanced, lookup-IsBalanced}
use pagealignfs.Fs.Balance.Making.{making-IsBalanced, link-IsBalanced, create-IsBalanced}
use pagealignfs.Callbacks.{run_callback}
use pagealignfs.Callbacks.Forgets.{forget-settled}
use pagealignfs.Callbacks.Owed.{replies}
use pagealignfs.InodeCache.References.{Sets}
use pagealignfs.Callbacks.Table.{Callback}
use pagealignfs.Callbacks.Cache.{run_callback-IsCache}
use pagealignfs.Tests.Sample.{sample, looked_up, looked_up-IsCache, a_row}

looked_up-room : (j : Key) → count_of j looked_up.inodes + 2 < u64
unfolding pagealignfs.InodeCache.find
looked_up-room j = ground arith

lookup-IsBalanced_example :
    Returns (λ r w. IsCache w × IsBalanced looked_up r w) (lookup 1 (text "a") sample looked_up)
lookup-IsBalanced_example =
    lookup-IsBalanced 1 (text "a") sample looked_up (inl refl) looked_up-IsCache looked_up-room

making-IsBalanced_example :
    Returns
      (λ r w. IsCache w × IsBalanced looked_up r w)
      (mknod 4096 (text "a") 420 0 sample looked_up)
    × Returns
        (λ r w. IsCache w × IsBalanced looked_up r w)
        (mkdir 4096 (text "a") 420 sample looked_up)
    × Returns
        (λ r w. IsCache w × IsBalanced looked_up r w)
        (symlink (text "b") 4096 (text "a") sample looked_up)
unfolding pagealignfs.Inode.entry_at
making-IsBalanced_example =
    making-IsBalanced looked_up looked_up-IsCache looked_up-room 4096 (text "a") sample
      (inr (a_row, refl)) 420 0 (text "b")

link-IsBalanced_example :
    Returns (λ r w. IsCache w × IsBalanced looked_up r w) (link 4096 1 (text "a") sample looked_up)
unfolding pagealignfs.Inode.entry_at
link-IsBalanced_example =
    link-IsBalanced looked_up looked_up-IsCache looked_up-room 1 (text "a") sample (inl refl) 4096
      (inr (a_row, refl))

abbrev a_file : FileInfo
a_file = record { flags = 2; fh = 0; noflush = false; parallel_direct_writes = false; others = 0 }

create-IsBalanced_example :
    Returns
      (λ r w. IsCache w × IsBalanced looked_up r w)
      (create 1 (text "a") 420 a_file sample looked_up)
create-IsBalanced_example =
    create-IsBalanced looked_up looked_up-IsCache looked_up-room 1 (text "a") sample (inl refl) 420
      a_file

run_callback-IsCache_example :
    Holds (λ _ w. IsCache w) (run_callback 11 (Callback.forget 4096 2) sample looked_up)
run_callback-IsCache_example =
    run_callback-IsCache 11 (Callback.forget 4096 2) sample looked_up looked_up-IsCache

forget-settled_example :
    Returns
      (λ _ w.
        Sets a_row.key (a_row.refcnt - 2) looked_up w
        × (replies w.trace ≡ replies looked_up.trace + 1)
        × (w.req ≡ none))
      (run_callback 11 (Callback.forget 4096 2) sample looked_up)
unfolding pagealignfs.Inode.entry_at
forget-settled_example =
    forget-settled 4096 2 looked_up a_row (omega arith) 11 sample looked_up-IsCache refl refl

looked_up-HaveFds : HaveFds looked_up.inodes
looked_up-HaveFds = (refl, tt)

lookup-no_leak_example :
    Returns
      (λ _ w.
        HaveFds w.inodes
        × (opens w.trace + closes looked_up.trace + length looked_up.inodes
            ≡ opens looked_up.trace + closes w.trace + length w.inodes))
      (lookup 1 (text "a") sample looked_up)
lookup-no_leak_example =
    lookup-no_leak 1 (text "a") sample looked_up (inl refl) looked_up-IsCache looked_up-HaveFds
      looked_up-room

unref-no_leak_example :
    Returns
      (λ r w.
        (r ≡ ok tt)
        × HaveFds w.inodes
        × (opens w.trace + closes looked_up.trace + length looked_up.inodes
            ≡ opens looked_up.trace + closes w.trace + length w.inodes))
      (unref 4096 2 sample looked_up)
unfolding pagealignfs.Inode.entry_at
unref-no_leak_example =
    unref-no_leak 4096 2 sample looked_up a_row looked_up-IsCache looked_up-HaveFds refl
      (omega arith)

abbrev a_batch : List ForgetData
a_batch = record { ino = 4096; nlookup = 1 } ∷ record { ino = 4096; nlookup = 1 } ∷ []

forget_multi-each_example :
    forget_multi a_batch sample looked_up ≡ forget_each a_batch sample looked_up
forget_multi-each_example = forget_multi-each a_batch sample looked_up
