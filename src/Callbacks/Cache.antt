-- ===== src/Callbacks/Cache.antt =====
-- Every callback keeps the cache of inodes well-formed.
use pagealignfs.Prelude.{ℕ}
use pagealignfs.System.{Env}
use pagealignfs.World.{World}
use pagealignfs.Effect.Keeps.{Holds}
use pagealignfs.InodeCache.Counts.{IsCache}
use pagealignfs.Fs.CacheKeeps.{call-IsCache}
use pagealignfs.Fs.CacheKeeps.Handlers.{state-IsCache}
use pagealignfs.Callbacks.{run_callback}
use pagealignfs.Callbacks.Table.{Callback}
use pagealignfs.Callbacks.Keeps.{RequestKeeps, reply_none-Keeps, run_callback-Keeps}

requests-IsCache : (req : ℕ) → RequestKeeps req IsCache
requests-IsCache req = record {
  state = state-IsCache;
  at_begin = λ w p. p;
  at_clear = λ w p. p;
  at_none = reply_none-Keeps (λ r. call-IsCache _) (λ w p. p);
}

-- Every callback that returns leaves the cache well-formed, if it found it so: no key and no address
-- stands twice, each row has the key of its inode, and the counts are below 2^64.
pub run_callback-IsCache :
    (req : ℕ) (c : Callback) (e : Env) (w : World)
    → IsCache w
    → Holds (λ _ w'. IsCache w') (run_callback req c e w)
run_callback-IsCache req c e w p = (run_callback-Keeps (requests-IsCache req) c).at e w p
