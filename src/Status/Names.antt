-- ===== src/Status/Names.antt =====
-- The table of pafs/errno.cc. ENOTSUP is EOPNOTSUPP (95) in the C library.
use pagealignfs.Prelude.{List, [], ◌∷◌, Option, none, some, if◌then◌else◌}
use pagealignfs.Prelude.Int.{ℤ, pos}
use pagealignfs.Prelude.Bytes.{Text, text, eqb}

-- kNamesToErrors
unfoldable pub names_to_errors : List (Text × ℤ)
names_to_errors =
    (text "OK", pos 0)
    ∷ (text "EINVAL", pos 22)
    ∷ (text "ENAMETOOLONG", pos 36)
    ∷ (text "E2BIG", pos 7)
    ∷ (text "EDESTADDRREQ", pos 89)
    ∷ (text "EDOM", pos 33)
    ∷ (text "EFAULT", pos 14)
    ∷ (text "EILSEQ", pos 84)
    ∷ (text "ENOPROTOOPT", pos 92)
    ∷ (text "ENOSTR", pos 60)
    ∷ (text "ENOTSOCK", pos 88)
    ∷ (text "ENOTTY", pos 25)
    ∷ (text "EPROTOTYPE", pos 91)
    ∷ (text "ESPIPE", pos 29)
    ∷ (text "ETIMEDOUT", pos 110)
    ∷ (text "ETIME", pos 62)
    ∷ (text "ENODEV", pos 19)
    ∷ (text "ENOENT", pos 2)
    ∷ (text "ENOMEDIUM", pos 123)
    ∷ (text "ENXIO", pos 6)
    ∷ (text "ESRCH", pos 3)
    ∷ (text "EEXIST", pos 17)
    ∷ (text "EADDRNOTAVAIL", pos 99)
    ∷ (text "EALREADY", pos 114)
    ∷ (text "ENOTUNIQ", pos 76)
    ∷ (text "EPERM", pos 1)
    ∷ (text "EACCES", pos 13)
    ∷ (text "ENOKEY", pos 126)
    ∷ (text "EROFS", pos 30)
    ∷ (text "ENOTEMPTY", pos 39)
    ∷ (text "EISDIR", pos 21)
    ∷ (text "ENOTDIR", pos 20)
    ∷ (text "EADDRINUSE", pos 98)
    ∷ (text "EBADF", pos 9)
    ∷ (text "EBADFD", pos 77)
    ∷ (text "EBUSY", pos 16)
    ∷ (text "ECHILD", pos 10)
    ∷ (text "EISCONN", pos 106)
    ∷ (text "EISNAM", pos 120)
    ∷ (text "ENOTBLK", pos 15)
    ∷ (text "ENOTCONN", pos 107)
    ∷ (text "EPIPE", pos 32)
    ∷ (text "ESHUTDOWN", pos 108)
    ∷ (text "ETXTBSY", pos 26)
    ∷ (text "EUNATCH", pos 49)
    ∷ (text "ENOSPC", pos 28)
    ∷ (text "EDQUOT", pos 122)
    ∷ (text "EMFILE", pos 24)
    ∷ (text "EMLINK", pos 31)
    ∷ (text "ENFILE", pos 23)
    ∷ (text "ENOBUFS", pos 105)
    ∷ (text "ENODATA", pos 61)
    ∷ (text "ENOMEM", pos 12)
    ∷ (text "ENOSR", pos 63)
    ∷ (text "EUSERS", pos 87)
    ∷ (text "ECHRNG", pos 44)
    ∷ (text "EFBIG", pos 27)
    ∷ (text "EOVERFLOW", pos 75)
    ∷ (text "ERANGE", pos 34)
    ∷ (text "ENOPKG", pos 65)
    ∷ (text "ENOSYS", pos 38)
    ∷ (text "ENOTSUP", pos 95)
    ∷ (text "EAFNOSUPPORT", pos 97)
    ∷ (text "EPFNOSUPPORT", pos 96)
    ∷ (text "EPROTONOSUPPORT", pos 93)
    ∷ (text "ESOCKTNOSUPPORT", pos 94)
    ∷ (text "EXDEV", pos 18)
    ∷ (text "EAGAIN", pos 11)
    ∷ (text "ECOMM", pos 70)
    ∷ (text "ECONNREFUSED", pos 111)
    ∷ (text "ECONNABORTED", pos 103)
    ∷ (text "ECONNRESET", pos 104)
    ∷ (text "EINTR", pos 4)
    ∷ (text "EHOSTDOWN", pos 112)
    ∷ (text "EHOSTUNREACH", pos 113)
    ∷ (text "ENETDOWN", pos 100)
    ∷ (text "ENETRESET", pos 102)
    ∷ (text "ENETUNREACH", pos 101)
    ∷ (text "ENOLCK", pos 37)
    ∷ (text "ENOLINK", pos 67)
    ∷ (text "ENONET", pos 64)
    ∷ (text "EDEADLK", pos 35)
    ∷ (text "ESTALE", pos 116)
    ∷ (text "ECANCELED", pos 125)
    ∷ []

-- flat_hash_map::find
unfoldable pub find : Text → List (Text × ℤ) → Option ℤ
find name [] = none
find name ((key, n) ∷ rest) = if eqb key name then some n else find name rest
