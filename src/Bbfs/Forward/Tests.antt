-- ===== src/Bbfs/Forward/Tests.antt =====
-- Requests to project4/bbfs.c over a small file system, and a directory read into a small buffer.
use mathlib.Core.Option
use ee.Base.{
  ℕ, ◌-◌, ◌≤◌, ◌<◌, ◌≡◌, refl, Bool, true, false, Option, some, none, List, [], ◌∷◌, ◌++◌, ◌==◌,
  leb, if◌then◌else◌, length, arith,
}
use ee.Base.Int.{pos, negsuc}
use ee.Bbfs.Forward.{Call, Result, Kernel, Request}
use ee.Bbfs.Forward.Operations.{bb_oper}
use ee.Bbfs.Forward.Serves.{status, bb_oper_serves}
use ee.Bbfs.Forward.Directory.{Listing, IsLimited, bb_readdir, bb_readdir_copies}

abbrev success : Result
success = record { value = pos 0; errno = 0; bytes = [] }

abbrev descriptor : Result
descriptor = record { value = pos 3; errno = 0; bytes = [] }

abbrev refusal : Result
refusal = record { value = negsuc 0; errno = 22; bytes = [] }

-- The state is the names that were created; `truncate` is refused.
abbrev names_call : Call → List (List ℕ) → Result × List (List ℕ)
names_call (Call.open_file fpath flags mode) s = (descriptor, fpath ∷ s)
names_call (Call.mkdir fpath mode) s = (success, fpath ∷ s)
names_call (Call.truncate fpath newsize) s = (refusal, s)
names_call c s = (success, s)

abbrev names_kernel : Kernel
names_kernel = record {
  State = List (List ℕ);
  call = names_call;
  s_isreg = λ mode. mode == 1;
  s_isfifo = λ mode. mode == 2;
  exclusive = 193;
  path_max = 8;
  have_fdatasync = true;
  have_sys_xattr_h = true;
}

abbrev root : List ℕ
root = 47 ∷ 114 ∷ []

abbrev file : List ℕ
file = 47 ∷ 97 ∷ []

bb_oper_serves_example :
    Option.map status (bb_oper names_kernel root (Request.truncate file 5) (file ∷ []))
    ≡ some (negsuc 0, file ∷ [])
bb_oper_serves_example = bb_oper_serves names_kernel root (Request.truncate file 5) (file ∷ [])

-- A directory as the list of its entries, and a buffer with the room that is left.
abbrev next_name : List (List ℕ) → Option (List ℕ) × List (List ℕ)
next_name [] = (none, [])
next_name (name ∷ names) = (some name, names)

abbrev fill_name : List (List ℕ) × ℕ → List ℕ → Bool × (List (List ℕ) × ℕ)
fill_name (names, room) name =
    if leb (length name) room
    then (false, (names ++ name ∷ [], room - length name))
    else (true, (names, room))

abbrev small : Listing
small = record {
  Stream = List (List ℕ);
  readdir = next_name;
  errno = λ dp. 9;
  Buffer = List (List ℕ) × ℕ;
  filler = fill_name;
}

fits : (a b : ℕ) → a ≤ b → leb a b ≡ true
fits a b h = ground arith

too_long : (a b : ℕ) → b < a → leb a b ≡ false
too_long a b h = ground arith

small-IsLimited : IsLimited small (λ b. b.0) (λ b. b.1) length
small-IsLimited = record {
  accepts = λ b name h. rw (fits (length name) b.1 h) (refl, refl, refl);
  refuses = λ b name h. rw (too_long (length name) b.1 h) (refl, refl);
}

bb_readdir_copies_example :
    (dp' : List (List ℕ)) × (buf' : List (List ℕ) × ℕ) × (bb_readdir small 5
        ((46 ∷ []) ∷ (46 ∷ 46 ∷ []) ∷ file ∷ [])
        ([], 4)
      ≡ some (negsuc 11, dp', buf'))
    × (buf'.0 ≡ (46 ∷ []) ∷ (46 ∷ 46 ∷ []) ∷ [])
bb_readdir_copies_example =
    bb_readdir_copies small small-IsLimited 5 (46 ∷ []) ((46 ∷ 46 ∷ []) ∷ file ∷ [])
      ((46 ∷ []) ∷ (46 ∷ 46 ∷ []) ∷ file ∷ []) ([], 4) (refl, (refl, (refl, refl))) (omega arith)
