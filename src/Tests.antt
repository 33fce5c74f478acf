-- ===== src/Tests.antt =====
-- The theorems at concrete inputs.
mod Sample
mod Cache
mod Callbacks
mod Directories
mod Dispatch
mod Changes
mod Ledgers
mod Listings
mod Lookups
mod Handles
mod Replies
mod Runs
mod Main
use pagealignfs.Prelude.{◌≡◌, ◌≢◌, ◌+◌, refl, none, inl, inr, []}
use pagealignfs.Prelude.Int.{pos}
use pagealignfs.Prelude.Bytes.{text}
use pagealignfs.System.Types.{StatusCode}
use pagealignfs.Status.{ok, err, failure, errno_to_status, get_errno_from_status, prepend, append}
use pagealignfs.Status.RoundTrip.{errno_round_trip, errno_not_listed, errno_lost}
use pagealignfs.Effect.{diverged}
use pagealignfs.Effect.Keeps.{Holds}
use pagealignfs.Resource.Mount.{umount, IsBusy, umount-diverged}
use pagealignfs.Tests.Sample.{sample, sample_laws, mounted}

enoent-fails : (sample.errno_to_status (pos 2) (text "openat")).code ≢ StatusCode.k_ok
enoent-fails = λ h. cc

enoent-errno : pos 2 ≢ pos 0
enoent-errno = λ h. cc

errno_round_trip_example :
    get_errno_from_status sample (errno_to_status sample (pos 2) (text "openat")) ≡ ok (pos 2)
unfolding pagealignfs.Status.Names.find pagealignfs.Status.Names.names_to_errors
    pagealignfs.Prelude.Bytes.eqb
errno_round_trip_example =
    errno_round_trip sample_laws (pos 2) (text "openat") enoent-fails enoent-errno (refl, refl)
      (inr (text "ENOENT", refl, refl))

eio-fails : (sample.errno_to_status (pos 5) (text "read")).code ≢ StatusCode.k_ok
eio-fails = λ h. cc

eio-errno : pos 5 ≢ pos 0
eio-errno = λ h. cc

errno_not_listed_example :
    get_errno_from_status sample (errno_to_status sample (pos 5) (text "read"))
    ≡ err (failure StatusCode.k_not_found (text "No such errno for "))
unfolding pagealignfs.Status.Names.find pagealignfs.Status.Names.names_to_errors
    pagealignfs.Prelude.Bytes.eqb
errno_not_listed_example =
    errno_not_listed sample_laws (pos 5) (text "read") (text "EIO") eio-fails eio-errno refl refl

errno_lost_example :
    (get_errno_from_status sample (
        prepend sample (errno_to_status sample (pos 2) (text "openat")) (text "Lookup") (text ": "))
      ≡ err (failure StatusCode.k_not_found (text "No payload")))
    × (get_errno_from_status sample (
          append sample
            (errno_to_status sample (pos 2) (text "openat"))
            (text "Lookup")
            (text ": "))
        ≡ err (failure StatusCode.k_not_found (text "No payload")))
errno_lost_example =
    errno_lost sample_laws (errno_to_status sample (pos 2) (text "openat")) (text "Lookup")
      (text ": ")

mnt-IsBusy : IsBusy sample (text "/mnt")
unfolding errno_to_status
mnt-IsBusy = record { fails = λ h flags. refl; error = λ h flags. refl }

umount-diverged_example : umount 3 (text "/mnt") 0 sample mounted ≡ diverged
umount-diverged_example = umount-diverged sample 47 (text "mnt") mnt-IsBusy 3 0 mounted
