-- ===== src/Bbfs/Forward.antt =====
-- The calls by which project4/bbfs.c passes its operations on to the file system below, and the
-- requests of FUSE. That system is a parameter: a call has a value, an error number if it failed, and
-- bytes that it wrote. `Operations` has the operations themselves.
pub mod Operations
pub mod Table
pub mod Serves
pub mod Directory
mod Tests
use ee.Base.{ℕ, zero, suc, Bool, true, false, Option, List}
use ee.Base.Int.{ℤ, pos, negsuc}

-- The system calls with their arguments; paths and names are their bytes.
pub data Call : Type 0 where
  lstat : (fpath : List ℕ) → Call
  readlink : (fpath : List ℕ) (size : ℕ) → Call
  open_file : (fpath : List ℕ) (flags : ℕ) (mode : Option ℕ) → Call
  close : (fd : ℤ) → Call
  mkfifo : (fpath : List ℕ) (mode : ℕ) → Call
  mknod : (fpath : List ℕ) (mode dev : ℕ) → Call
  mkdir : (fpath : List ℕ) (mode : ℕ) → Call
  unlink rmdir : (fpath : List ℕ) → Call
  symlink : (path flink : List ℕ) → Call
  rename link : (fpath fnewpath : List ℕ) → Call
  chmod : (fpath : List ℕ) (mode : ℕ) → Call
  chown : (fpath : List ℕ) (uid gid : ℕ) → Call
  truncate : (fpath : List ℕ) (newsize : ℕ) → Call
  utime : (fpath : List ℕ) (actime modtime : ℕ) → Call
  statvfs : (fpath : List ℕ) → Call
  fsync fdatasync : (fd : ℤ) → Call
  lsetxattr : (fpath name value : List ℕ) (size flags : ℕ) → Call
  lgetxattr : (fpath name : List ℕ) (size : ℕ) → Call
  llistxattr : (fpath : List ℕ) (size : ℕ) → Call
  lremovexattr : (fpath name : List ℕ) → Call
  access : (fpath : List ℕ) (mask : ℕ) → Call
  creat : (fpath : List ℕ) (mode : ℕ) → Call
  ftruncate : (fd : ℤ) (offset : ℕ) → Call
  fstat : (fd : ℤ) → Call
  opendir : (fpath : List ℕ) → Call
  closedir : (dp : ℤ) → Call

-- The value of `opendir` is the address of the stream, 0 for NULL.
pub record Result : Type 0 where
  pub value : ℤ
  pub errno : ℕ
  pub bytes : List ℕ

-- The calls, the macros S_ISREG and S_ISFIFO, the flags `O_CREAT | O_EXCL | O_WRONLY`, the constant
-- PATH_MAX, and whether HAVE_FDATASYNC and HAVE_SYS_XATTR_H are defined.
pub record Kernel : Type 1 where
  pub State : Type 0
  pub call : Call → State → Result × State
  pub s_isreg : ℕ → Bool
  pub s_isfifo : ℕ → Bool
  pub exclusive : ℕ
  pub path_max : ℕ
  pub have_fdatasync : Bool
  pub have_sys_xattr_h : Bool

-- What an operation returns, with what it wrote into its buffer and into `fi->fh`.
pub record Reply : Type 0 where
  pub retstat : ℤ
  pub buffer : List ℕ
  pub fh : ℤ

-- `-errno`
abbrev pub neg : ℕ → ℤ
neg zero = pos 0
neg (suc n) = negsuc n

abbrev pub bb_error : Result → ℤ
bb_error r = neg r.errno

abbrev pub is_negative : ℤ → Bool
is_negative (pos n) = false
is_negative (negsuc n) = true

abbrev pub is_zero : ℤ → Bool
is_zero (pos zero) = true
is_zero (pos (suc n)) = false
is_zero (negsuc n) = false

-- The operations of FUSE, as `struct fuse_operations` lists them. `list_null` says that there is no
-- buffer for the list, which asks for its size.
pub data Request : Type 0 where
  getattr : (path : List ℕ) → Request
  readlink : (path : List ℕ) (size : ℕ) → Request
  mknod : (path : List ℕ) (mode dev : ℕ) → Request
  mkdir : (path : List ℕ) (mode : ℕ) → Request
  unlink rmdir : (path : List ℕ) → Request
  symlink : (path link : List ℕ) → Request
  rename link : (path newpath : List ℕ) → Request
  chmod : (path : List ℕ) (mode : ℕ) → Request
  chown : (path : List ℕ) (uid gid : ℕ) → Request
  truncate : (path : List ℕ) (newsize : ℕ) → Request
  utime : (path : List ℕ) (actime modtime : ℕ) → Request
  opens : (path : List ℕ) (flags : ℕ) → Request
  statfs : (path : List ℕ) → Request
  flush : Request
  fsync : (datasync : Bool) (fh : ℤ) → Request
  setxattr : (path name value : List ℕ) (size flags : ℕ) → Request
  getxattr : (path name : List ℕ) (size : ℕ) → Request
  listxattr : (path : List ℕ) (list_null : Bool) (size : ℕ) → Request
  removexattr : (path name : List ℕ) → Request
  opendir : (path : List ℕ) → Request
  releasedir : (fh : ℤ) → Request
  fsyncdir : Request
  access : (path : List ℕ) (mask : ℕ) → Request
  create : (path : List ℕ) (mode : ℕ) → Request
  ftruncate : (offset : ℕ) (fh : ℤ) → Request
  fgetattr : (path : List ℕ) (fh : ℤ) → Request
