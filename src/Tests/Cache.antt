-- ===== src/Tests/Cache.antt =====
-- The theorems on the inode cache at concrete inputs.
use pagealignfs.Prelude.{none, ◌≡◌, ◌+◌, ◌%◌, refl, arith}
use pagealignfs.Status.{ok}
use pagealignfs.Effect.{aborted}
use pagealignfs.Effect.Returns.{Returns}
use pagealignfs.InodeCache.{insert, ref, unref, key_of, u64}
use pagealignfs.InodeCache.Counts.{count_of}
use pagealignfs.InodeCache.References.{Sets, insert-Sets, ref-Sets, unref-aborted}
use pagealignfs.InodeCache.Erased.{HasRow, unref-HasRow}
use pagealignfs.Tests.Sample.{sample, looked_up, looked_up-IsCache, a_row}

insert-Sets_example :
    Returns
      (λ p w.
        Sets
          (key_of a_row.inode)
          ((count_of (key_of a_row.inode) looked_up.inodes + 1) % u64)
          looked_up
          w)
      (insert a_row.inode sample looked_up)
insert-Sets_example = insert-Sets a_row.inode sample looked_up looked_up-IsCache

ref-Sets_example :
    Returns
      (λ r w. (r ≡ ok tt) × Sets a_row.key ((a_row.refcnt + 3) % u64) looked_up w)
      (ref 4096 3 sample looked_up)
unfolding pagealignfs.Inode.entry_at
ref-Sets_example = ref-Sets 4096 3 sample looked_up a_row looked_up-IsCache refl

unref-HasRow_example :
    Returns (λ r w. (r ≡ ok tt) × HasRow a_row.key none looked_up w) (unref 4096 2 sample looked_up)
unfolding pagealignfs.Inode.entry_at
unref-HasRow_example =
    unref-HasRow 4096 2 sample looked_up a_row looked_up-IsCache refl (omega arith)

unref-aborted_example : unref 4096 3 sample looked_up ≡ aborted
unfolding pagealignfs.Inode.entry_at
unref-aborted_example =
    unref-aborted 4096 3 sample looked_up a_row looked_up-IsCache refl (omega arith)
