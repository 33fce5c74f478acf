-- ===== src/Tests/Sample.antt =====
-- A concrete environment and state, at which the theorems are run.
use pagealignfs.Prelude.{
  ℕ, ◌-◌, ◌+◌, ◌≡◌, ◌≢◌, refl, true, Option, none, some, List, [], ◌∷◌, ◌++◌, arith, if◌then◌else◌,
  length, take, length-append,
}
use pagealignfs.Prelude.Int.{ℤ, pos, negsuc, minus_one, eqb_ℤ}
use pagealignfs.Prelude.Bytes.{Text, text, eqb, eqb_iff}
use pagealignfs.System.{Env, Answer}
use pagealignfs.System.Types.{Status, StatusCode, Stat}
use pagealignfs.System.Calls.{Call}
use pagealignfs.World.{World, Entry}
use pagealignfs.InodeCache.Counts.{IsCache}
use pagealignfs.Status.{failure, is_ok}
use pagealignfs.Status.RoundTrip.{is_ok-false}
use pagealignfs.Status.Laws.{StatusLaws}

abbrev pub a_directory : Stat
a_directory = record {
  st_dev = 1;
  st_ino = 7;
  st_mode = 16384;
  st_uid = 0;
  st_gid = 0;
  st_size = 0;
  st_atim = (0, pos 0);
  st_mtim = (0, pos 0);
  others = 0;
}

abbrev succeeded : Answer
succeeded = record {
  rc = pos 0;
  errno = pos 0;
  bytes = [];
  stat = a_directory;
  entry = none;
  number = 9;
}

-- The kernel: nothing can be unmounted (EBUSY), all else succeeds.
abbrev answer_of : Call → Answer
answer_of (Call.umount2 target flags) = record succeeded { rc = minus_one; errno = pos 16 }
answer_of _ = succeeded

abbrev digits : ℤ → Text
digits (pos n) = n ∷ []
digits (negsuc n) = 45 ∷ n ∷ []

abbrev of_digits : Text → Option ℤ
of_digits [] = none
of_digits (n ∷ []) = some (pos n)
of_digits (_ ∷ n ∷ _) = some (negsuc n)

abbrev concat : List Text → Text
concat [] = []
concat (t ∷ ts) = t ++ concat ts

abbrev strip_prefix : Text → Text → Option Text
strip_prefix [] s = some s
strip_prefix (c ∷ p) [] = none
strip_prefix (c ∷ p) (d ∷ s) = if eqb (c ∷ []) (d ∷ []) then strip_prefix p s else none

abbrev strip_suffix : Text → Text → Option Text
strip_suffix p s =
    let kept = take (length s - length p) s in if eqb (kept ++ p) s then some kept else none

abbrev name_of : ℤ → Option Text
name_of n =
    if eqb_ℤ n (pos 2)
    then some (text "ENOENT")
    else (if eqb_ℤ n (pos 5) then some (text "EIO") else none)

abbrev payload_at : Text → List (Text × Text) → Option Text
payload_at url [] = none
payload_at url ((key, payload) ∷ rest) = if eqb key url then some payload else payload_at url rest

abbrev pub sample : Env
sample = record {
  answer = λ h c. answer_of c;
  strerrorname_np = name_of;
  str_cat = concat;
  decimal = digits;
  str_format = λ format n. text "UNKNOWN (" ++ (digits n ++ text ")");
  simple_atoi = of_digits;
  consume_prefix = strip_prefix;
  consume_suffix = strip_suffix;
  errno_to_status = λ n message.
      if eqb_ℤ n (pos 0) then failure StatusCode.k_ok [] else failure StatusCode.k_unknown message;
  set_payload = λ st url payload.
      if is_ok st.code then st else record st { payloads = (url, payload) ∷ st.payloads };
  get_payload = λ st url. payload_at url st.payloads;
  to_int64_milliseconds = λ d. d;
}

eqb_refl : (s : Text) → eqb s s ≡ true
eqb_refl s = (eqb_iff s s).1 refl

code-set_payload : (st : Status) (url v : Text) → (sample.set_payload st url v).code ≡ st.code
code-set_payload st url v = ground arith

get_payload-set_payload :
    (st : Status) (url v : Text)
    → st.code ≢ StatusCode.k_ok
    → sample.get_payload (sample.set_payload st url v) url ≡ some v
get_payload-set_payload st url v h = rw (is_ok-false st.code h, eqb_refl url)

get_payload-nil : (st : Status) (url : Text) → st.payloads ≡ [] → sample.get_payload st url ≡ none
get_payload-nil st url h = rw h

strip_prefix-append : (p s : Text) → strip_prefix p (p ++ s) ≡ some s
strip_prefix-append [] s = refl
strip_prefix-append (c ∷ p) s = rw (eqb_refl (c ∷ []), strip_prefix-append p s)

take-append : (s p : Text) → take (length s) (s ++ p) ≡ s
take-append [] p = refl
take-append (c ∷ s) p = rw (take-append s p)

length-left : (m n : ℕ) → m + n - n ≡ m
length-left m n = omega arith

strip_suffix-append : (p s : Text) → strip_suffix p (s ++ p) ≡ some s
strip_suffix-append p s =
    let measured = length-append s p in
    rw (measured, length-left (length s) (length p), take-append s p, eqb_refl (s ++ p))

name_of-known :
    (n : ℤ) (name : Text) → name_of n ≡ some name → strip_prefix (text "UNKNOWN (") name ≡ none
name_of-known n name h = ground arith

simple_atoi-decimal : (n : ℤ) → of_digits (digits n) ≡ some n
simple_atoi-decimal (pos n) = refl
simple_atoi-decimal (negsuc n) = refl

pub sample_laws : StatusLaws sample
sample_laws = record {
  code-set_payload = code-set_payload;
  get_payload-set_payload = get_payload-set_payload;
  get_payload-nil = get_payload-nil;
  str_format-unknown = λ n int. refl;
  simple_atoi-decimal = λ n int. simple_atoi-decimal n;
  consume_prefix-append = strip_prefix-append;
  consume_suffix-append = strip_suffix-append;
  strerrorname_np-known = name_of-known;
}

-- Before the first callback: the root is open, the cache and the directories are empty.
abbrev pub mounted : World
mounted = record {
  trace = [];
  req = none;
  root = record {
    fd = record { fd = pos 4 };
    num = 2;
    src_dev_num = 1;
    generation = none;
    poll_handle = record { handle = 0 };
  };
  inodes = [];
  directories = [];
  next_address = 4096;
  opts = record { kernel_entry_timeout = pos 1; kernel_attribute_timeout = pos 1 };
}

-- After a lookup: one inode is cached, and the kernel knows it twice.
abbrev pub a_row : Entry
a_row = record {
  key = record { dev = 1; ino = 7 };
  refcnt = 2;
  inode = record {
    fd = record { fd = pos 5 };
    num = 7;
    src_dev_num = 1;
    generation = none;
    poll_handle = record { handle = 0 };
  };
  address = 4096;
}

abbrev pub looked_up : World
looked_up = record mounted { inodes = a_row ∷ []; next_address = 4097 }

pub looked_up-IsCache : IsCache looked_up
unfolding pagealignfs.InodeCache.find pagealignfs.Inode.entry_at
looked_up-IsCache = (omega arith, (refl, omega arith, omega arith, omega arith, refl, refl, tt))
