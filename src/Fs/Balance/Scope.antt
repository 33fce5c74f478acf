-- ===== src/Fs/Balance/Scope.antt =====
-- The scope of ReplyWithLookup in which the inode is held: it always returns, and what it does to
-- the count of its key.
use pagealignfs.Prelude.{ℕ, ◌+◌, ◌-◌, ◌<◌, ◌≡◌, arith, true, Option, none, some}
use pagealignfs.Prelude.Bytes.{Text}
use pagealignfs.System.Types.{EntryParam}
use pagealignfs.System.Calls.{Reply}
use pagealignfs.World.{World, Inode, Key}
use pagealignfs.Status.{StatusOr, ok, err}
use pagealignfs.Effect
use pagealignfs.Effect.{M, call, modify}
use pagealignfs.Effect.Fallible
use pagealignfs.Effect.Fallible.{E, lift, log_if_error, unless_ok}
use pagealignfs.Effect.Returns.{
  Returns-mono, Returns-bind, returns, Quiet, Quiet-attempt, Quiet-return, Quiet-pure_ok,
}
use pagealignfs.Effect.Ensures.{
  Ensures, Ensures-then, Ensures-lift_then, Ensures-returned, Ensures-if, Ensures-fail,
  Ensures-finally, Ensures-weaken, Ensures-unless_ok, Ensures-gets, Quiet-Ensures,
}
use pagealignfs.Inode.{stat, get_generation, generation_or_read}
use pagealignfs.Inode.Quiet.{stat_fd-Quiet, version-Quiet}
use pagealignfs.InodeCache.{key_of, u64, ref, unref, with_shared}
use pagealignfs.InodeCache.Live.{
  Counted, Live, get_inode-Live, set_inode-Live, ref-Live, unref-Live, unref-Counted,
}
use pagealignfs.InodeCache.Reach.{IsLive, get_inode-IsLive}
use pagealignfs.Request.{send}
use pagealignfs.Request.Kept.{send-Kept}
use pagealignfs.Fs.Entries.{generation_if, create_fuse_entry_param, reply_in_scope}

module _ (base : Key → ℕ) (p : ℕ) (k : Key) where
  module _ (n : ℕ) where
    -- A step that changes nothing of the state.
    Quiet-Live :
        {A : Type 0} (m : M A) → Quiet m → Ensures (Live base p k n) (λ _. Live base p k n) m
    Quiet-Live m km = Quiet-Ensures m (λ w t l. l) km

    pub send-Live :
        (r : Reply) (name : Text) → Ensures (Live base p k n) (λ _. Live base p k n) (send r name)
    send-Live = send-Kept (λ w t l. l) (λ w q l. l)

    generation_or_read-Live :
        (i : Inode) (g : Option (StatusOr ℕ))
        → key_of i ≡ k
        → 1 < p
        → Ensures (Live base p k n) (λ _. Live base p k n) (generation_or_read p i g)
    unfolding generation_or_read
    generation_or_read-Live i (some r) same h = Quiet-Live _ (Quiet-return r)
    generation_or_read-Live i none same h =
        Ensures-then _ _ (Quiet-Live _ (Quiet-attempt _ (version-Quiet _)))
          (λ r.
            Ensures-lift_then _ _ (set_inode-Live base p k n _ same h)
              λ _. Quiet-Live _ (Quiet-return r))
          (λ st w l. l)

    pub get_generation-Live : Ensures (Live base p k n) (λ _. Live base p k n) (get_generation p)
    unfolding get_generation
    get_generation-Live = Ensures-lift_then _ _ (get_inode-Live base p k n) λ i. record {
      at = λ e w (h, same, l). (generation_or_read-Live i i.generation same h).at e w l;
    }

    stat-Live : Ensures (Live base p k n) (λ _. Live base p k n) (stat p)
    unfolding stat
    stat-Live =
        Ensures-lift_then _ _ (get_inode-Live base p k n)
          λ i. record { at = λ e w (h, same, l). (Quiet-Live _ (stat_fd-Quiet _)).at e w l }

    create_fuse_entry_param-Live :
        Ensures (Live base p k n) (λ _. Live base p k n) (create_fuse_entry_param p true)
    unfolding create_fuse_entry_param generation_if
    create_fuse_entry_param-Live =
        Ensures-then _ _ stat-Live
          (λ attr.
            Ensures-then _ _ get_generation-Live
              (λ g. Ensures-lift_then _ _ (Ensures-gets _) λ opts. Quiet-Live _ (Quiet-pure_ok _))
              (λ st w l. l))
          (λ st w l. l)

  module _ (n : ℕ) (some_left : 0 < n) (bound : n + 1 < u64) where
    -- What holds once the reply was sent, and once it could not be.
    unfoldable pub Sent : StatusOr (Unit {0}) → World → Type 0
    Sent (ok _) = Live base p k (n + 1)
    Sent (err _) = Live base p k n

    ref_and_reply-Sent :
        (m : E (Unit {0}))
        → Ensures (Live base p k (n + 1)) (λ _. Live base p k (n + 1)) m
        → Ensures
            (Live base p k n)
            Sent
            (Fallible.◌>>◌ (ref p 1) (unless_ok m (log_if_error (unref p 1))))
    unfolding Sent log_if_error Effect.◌>>=◌ Effect.pure
    ref_and_reply-Sent m km =
        Ensures-returned {Q = λ _. Live base p k (n + 1)} (ref p 1) _
          (record {
            at = λ e w l.
                Returns-mono (ref-Live base p k n e w bound l) λ r w' (same, l'). (tt, same, l');
          })
          (λ _.
            Ensures-unless_ok m _ km (λ a w l. l)
              λ st. record {
                at = λ e w l.
                    Returns-bind (unref-Live base p k n e w some_left l) λ r w' (_, l'). returns l';
              })

    -- The same at the end of the scope of the shared_ptr, whose reference goes back.
    unfoldable pub Settled : StatusOr (Unit {0}) → World → Type 0
    Settled (ok _) = Counted base k n
    Settled (err _) = Counted base k (n - 1)

    pub body-Sent :
        (parent : ℕ) (reply : EntryParam → E (Unit {0}))
        → ((param : EntryParam)
            → Ensures (Live base p k (n + 1)) (λ _. Live base p k (n + 1)) (reply param))
        → Ensures (λ w. IsLive parent w × Live base p k n w) Sent (reply_in_scope parent p reply)
    unfolding Sent reply_in_scope
    body-Sent parent reply kr =
        Ensures-lift_then _ _ (Ensures-weaken _ (get_inode-IsLive parent (λ w l. l.0)) λ a w l. l.1)
          λ i.
            Ensures-lift_then _ _ (Ensures-weaken _ (get_inode-Live base p k n) λ a w (_, _, l). l)
              λ j.
                Ensures-if _ _ _
                  (Ensures-then _ _ (create_fuse_entry_param-Live n)
                    (λ param. ref_and_reply-Sent (reply param) (kr param)) (λ st w l. l))
                  (Ensures-fail _ (λ w l. l))

    release-Settled :
        (r : StatusOr (Unit {0})) → Ensures (Sent r) (λ _. Settled r) (log_if_error (unref p 1))
    unfolding Sent Settled log_if_error Effect.◌>>=◌ Effect.pure
    release-Settled (ok _) = record {
      at = λ e w l. Returns-bind (unref-Counted base p k n e w l) λ r w' c. returns c;
    }
    release-Settled (err _) = record {
      at = λ e w l.
          let n' : n - 1 + 1 ≡ n = omega arith in
          Returns-bind (unref-Counted base p k (n - 1) e w (rw n' l)) λ r w' c. returns c;
    }

    pub scope-Settled :
        {P : World → Type 0} (m : E (Unit {0}))
        → Ensures P Sent m
        → Ensures P Settled (with_shared p m)
    unfolding with_shared
    scope-Settled m km = Ensures-finally m _ km release-Settled
