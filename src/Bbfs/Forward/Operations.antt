-- ===== src/Bbfs/Forward/Operations.antt =====
-- The operations of project4/bbfs.c that call the file system below and neither read nor write data.
-- An operation is undefined, `none`, where its path does not fit into the array for it.
use ee.Base.{
  not, ◌||◌, ℕ, ◌-◌, Bool, true, false, Option, none, some, List, [], ◌∷◌, ◌++◌, ◌==◌, ltb, ◌&&◌,
  if◌then◌else◌, length, take,
}
use ee.Base.Int.{ℤ, pos, pos_part}
use ee.Bbfs.Read.{◌>>=◌}
use ee.Bbfs.Forward.{Call, Result, Kernel, Reply, Request, bb_error, neg, is_negative, is_zero}

-- `strcmp`
abbrev pub same_path : List ℕ → List ℕ → Bool
same_path [] [] = true
same_path [] (b ∷ q) = false
same_path (a ∷ p) [] = false
same_path (a ∷ p) (b ∷ q) = (a == b) && same_path p q

-- `size - 1` in `size_t`.
abbrev pub pred_size : ℕ → ℕ
pred_size size = if size == 0 then 18446744073709551615 else size - 1

-- The loop of `bb_listxattr`: whether each `strlen` finds its zero byte among the bytes that were written.
-- `left` is how far `ptr` is from the end, `inside` that a string was begun.
unfoldable pub terminated : (inside : Bool) → (left : ℕ) → List ℕ → Bool
terminated inside left [] = not inside && (left == 0)
terminated inside left (b ∷ bytes) =
    let rest = terminated (not (b == 0)) (left - 1) bytes in
    if not inside && (left == 0) then true else rest

abbrev pub is_logged : (list_null : Bool) → (retstat : ℤ) → List ℕ → Bool
is_logged list_null retstat bytes =
    (pos_part retstat == 0) || (not list_null && terminated false (pos_part retstat) bytes)

-- The number of the error ENOSYS.
abbrev pub enosys : ℕ
enosys = 38

-- "/"
abbrev pub slash : List ℕ
slash = 47 ∷ []

-- `if (retstat < 0) retstat = bb_error(...)`
abbrev pub checked : Result → ℤ
checked r = if is_negative r.value then bb_error r else r.value

-- `if (retstat < 0) bb_error(...)`
abbrev pub unchanged : Result → ℤ
unchanged r = r.value

-- `retstat = 0` and `if (fd < 0) retstat = bb_error(...)`
abbrev pub zero_or_error : Result → ℤ
zero_or_error r = if is_negative r.value then bb_error r else pos 0

abbrev pub null_is_error : Result → ℤ
null_is_error r = if is_zero r.value then bb_error r else pos 0

abbrev pub nonzero_is_error : Result → ℤ
nonzero_is_error r = if is_zero r.value then pos 0 else bb_error r

module _ (kernel : Kernel) (rootdir : List ℕ) where
  open kernel use {
    State, call, s_isreg, s_isfifo, exclusive, path_max, have_fdatasync, have_sys_xattr_h,
  }

  abbrev pub Op : Type 0
  Op = State → Option (Reply × State)

  -- `strcpy` and `strncat` into an array of `PATH_MAX` bytes. `strncat` copies `PATH_MAX` bytes of the
  -- path at most, and a zero byte.
  unfoldable pub bb_fullpath : List ℕ → Option (List ℕ)
  bb_fullpath path =
      let fpath = rootdir ++ take path_max path in
      if ltb (length fpath) path_max then some fpath else none

  -- A call, `retstat` from its result, and nothing in `fi->fh`.
  unfoldable pub forward : (Result → ℤ) → Call → Op
  forward retstat c s =
      let (r, s') = call c s in
      some (record { retstat = retstat r; buffer = r.bytes; fh = pos 0 }, s')

  -- A call whose value goes to `fi->fh`.
  unfoldable pub opened : (Result → ℤ) → Call → Op
  opened retstat c s =
      let (r, s') = call c s in
      some (record { retstat = retstat r; buffer = r.bytes; fh = r.value }, s')

  abbrev pub return_zero : Op
  return_zero s = some (record { retstat = pos 0; buffer = []; fh = pos 0 }, s)

  unfoldable pub bb_getattr : List ℕ → Op
  bb_getattr path s = do fpath ← bb_fullpath path; forward nonzero_is_error (Call.lstat fpath) s

  unfoldable pub bb_readlink : List ℕ → ℕ → Op
  bb_readlink path size s = do
    fpath ← bb_fullpath path
    let (r, s') = call (Call.readlink fpath (pred_size size)) s
    let link = if is_negative r.value then r.bytes else take (pos_part r.value) r.bytes ++ 0 ∷ []
    some (record { retstat = zero_or_error r; buffer = link; fh = pos 0 }, s')

  -- The descriptor of a new file is closed at once.
  abbrev pub close_new : Result → Op
  close_new r s =
      if is_negative r.value
      then some (record { retstat = bb_error r; buffer = r.bytes; fh = pos 0 }, s)
      else forward checked (Call.close r.value) s

  unfoldable pub bb_mknod : List ℕ → (mode dev : ℕ) → Op
  bb_mknod path mode dev s = do
    fpath ← bb_fullpath path
    if s_isreg mode
        then close_new (call (Call.open_file fpath exclusive (some mode)) s).0
            (call (Call.open_file fpath exclusive (some mode)) s).1
        else if s_isfifo mode
        then forward checked (Call.mkfifo fpath mode) s
        else forward checked (Call.mknod fpath mode dev) s

  unfoldable pub bb_mkdir : List ℕ → (mode : ℕ) → Op
  bb_mkdir path mode s = do fpath ← bb_fullpath path; forward checked (Call.mkdir fpath mode) s

  unfoldable pub bb_unlink : List ℕ → Op
  bb_unlink path s = do fpath ← bb_fullpath path; forward checked (Call.unlink fpath) s

  unfoldable pub bb_rmdir : List ℕ → Op
  bb_rmdir path s = do fpath ← bb_fullpath path; forward checked (Call.rmdir fpath) s

  unfoldable pub bb_symlink : (path link : List ℕ) → Op
  bb_symlink path link s = do flink ← bb_fullpath link; forward checked (Call.symlink path flink) s

  unfoldable pub bb_rename : (path newpath : List ℕ) → Op
  bb_rename path newpath s = do
    fpath ← bb_fullpath path
    fnewpath ← bb_fullpath newpath
    forward checked (Call.rename fpath fnewpath) s

  unfoldable pub bb_link : (path newpath : List ℕ) → Op
  bb_link path newpath s = do
    fpath ← bb_fullpath path
    fnewpath ← bb_fullpath newpath
    forward checked (Call.link fpath fnewpath) s

  unfoldable pub bb_chmod : List ℕ → (mode : ℕ) → Op
  bb_chmod path mode s = do fpath ← bb_fullpath path; forward checked (Call.chmod fpath mode) s

  unfoldable pub bb_chown : List ℕ → (uid gid : ℕ) → Op
  bb_chown path uid gid s = do
    fpath ← bb_fullpath path
    forward checked (Call.chown fpath uid gid) s

  unfoldable pub bb_truncate : List ℕ → (newsize : ℕ) → Op
  bb_truncate path newsize s = do
    fpath ← bb_fullpath path
    forward unchanged (Call.truncate fpath newsize) s

  unfoldable pub bb_utime : List ℕ → (actime modtime : ℕ) → Op
  bb_utime path actime modtime s = do
    fpath ← bb_fullpath path
    forward checked (Call.utime fpath actime modtime) s

  unfoldable pub bb_open : List ℕ → (flags : ℕ) → Op
  bb_open path flags s = do
    fpath ← bb_fullpath path
    opened zero_or_error (Call.open_file fpath flags none) s

  unfoldable pub bb_statfs : List ℕ → Op
  bb_statfs path s = do fpath ← bb_fullpath path; forward checked (Call.statvfs fpath) s

  unfoldable pub bb_flush : Op
  bb_flush s = return_zero s

  unfoldable pub bb_fsync : (datasync : Bool) (fh : ℤ) → Op
  bb_fsync datasync fh s =
      if have_fdatasync && datasync
      then forward unchanged (Call.fdatasync fh) s
      else forward unchanged (Call.fsync fh) s

  unfoldable pub bb_setxattr : (path name value : List ℕ) (size flags : ℕ) → Op
  bb_setxattr path name value size flags s = do
    fpath ← bb_fullpath path
    forward checked (Call.lsetxattr fpath name value size flags) s

  unfoldable pub bb_getxattr : (path name : List ℕ) (size : ℕ) → Op
  bb_getxattr path name size s = do
    fpath ← bb_fullpath path
    forward checked (Call.lgetxattr fpath name size) s

  -- The names are logged, which is undefined without a buffer to read them from.
  unfoldable pub bb_listxattr : List ℕ → (list_null : Bool) (size : ℕ) → Op
  bb_listxattr path list_null size s = do
    fpath ← bb_fullpath path
    let (r, s') = call (Call.llistxattr fpath size) s
    if is_logged list_null (checked r) r.bytes
        then some (record { retstat = checked r; buffer = r.bytes; fh = pos 0 }, s')
        else none

  unfoldable pub bb_removexattr : (path name : List ℕ) → Op
  bb_removexattr path name s = do
    fpath ← bb_fullpath path
    forward checked (Call.lremovexattr fpath name) s

  unfoldable pub bb_opendir : List ℕ → Op
  bb_opendir path s = do fpath ← bb_fullpath path; opened null_is_error (Call.opendir fpath) s

  -- The result of `closedir` is ignored.
  unfoldable pub bb_releasedir : (fh : ℤ) → Op
  bb_releasedir fh s = let (r, s') = call (Call.closedir fh) s in return_zero s'

  unfoldable pub bb_fsyncdir : Op
  bb_fsyncdir s = return_zero s

  unfoldable pub bb_access : List ℕ → (mask : ℕ) → Op
  bb_access path mask s = do fpath ← bb_fullpath path; forward checked (Call.access fpath mask) s

  unfoldable pub bb_create : List ℕ → (mode : ℕ) → Op
  bb_create path mode s = do
    fpath ← bb_fullpath path
    opened zero_or_error (Call.creat fpath mode) s

  unfoldable pub bb_ftruncate : (offset : ℕ) (fh : ℤ) → Op
  bb_ftruncate offset fh s = forward checked (Call.ftruncate fh offset) s

  unfoldable pub bb_fgetattr : List ℕ → (fh : ℤ) → Op
  bb_fgetattr path fh s =
      if same_path path slash then bb_getattr path s else forward checked (Call.fstat fh) s

  -- A member of `bb_oper` that is there only if HAVE_SYS_XATTR_H is defined. For one that is not set FUSE
  -- answers -ENOSYS.
  abbrev pub offered : Op → Op
  offered op s =
      if have_sys_xattr_h
      then op s
      else some (record { retstat = neg enosys; buffer = []; fh = pos 0 }, s)

  -- `bb_oper`
  unfoldable pub bb_oper : Request → Op
  bb_oper (Request.getattr path) = bb_getattr path
  bb_oper (Request.readlink path size) = bb_readlink path size
  bb_oper (Request.mknod path mode dev) = bb_mknod path mode dev
  bb_oper (Request.mkdir path mode) = bb_mkdir path mode
  bb_oper (Request.unlink path) = bb_unlink path
  bb_oper (Request.rmdir path) = bb_rmdir path
  bb_oper (Request.symlink path link) = bb_symlink path link
  bb_oper (Request.rename path newpath) = bb_rename path newpath
  bb_oper (Request.link path newpath) = bb_link path newpath
  bb_oper (Request.chmod path mode) = bb_chmod path mode
  bb_oper (Request.chown path uid gid) = bb_chown path uid gid
  bb_oper (Request.truncate path newsize) = bb_truncate path newsize
  bb_oper (Request.utime path actime modtime) = bb_utime path actime modtime
  bb_oper (Request.opens path flags) = bb_open path flags
  bb_oper (Request.statfs path) = bb_statfs path
  bb_oper Request.flush = bb_flush
  bb_oper (Request.fsync datasync fh) = bb_fsync datasync fh
  bb_oper (Request.setxattr path name value size flags) =
      offered (bb_setxattr path name value size flags)
  bb_oper (Request.getxattr path name size) = offered (bb_getxattr path name size)
  bb_oper (Request.listxattr path list_null size) = offered (bb_listxattr path list_null size)
  bb_oper (Request.removexattr path name) = offered (bb_removexattr path name)
  bb_oper (Request.opendir path) = bb_opendir path
  bb_oper (Request.releasedir fh) = bb_releasedir fh
  bb_oper Request.fsyncdir = bb_fsyncdir
  bb_oper (Request.access path mask) = bb_access path mask
  bb_oper (Request.create path mode) = bb_create path mode
  bb_oper (Request.ftruncate offset fh) = bb_ftruncate offset fh
  bb_oper (Request.fgetattr path fh) = bb_fgetattr path fh
