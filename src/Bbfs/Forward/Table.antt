-- ===== src/Bbfs/Forward/Table.antt =====
-- The operations of project4/bbfs.c as a table: the call that each request stands for, and what its
-- result becomes.
use ee.Base.{
  ℕ, ◌+◌, Bool, true, false, not, Option, none, some, List, ◌++◌, if◌then◌else◌, ◌&&◌, length, ltb,
}
use ee.Base.Int.{ℤ, pos}
use ee.Bbfs.Forward.{Call, Result, Kernel, Request, neg, is_negative, is_zero}
use ee.Bbfs.Forward.Operations.{enosys, is_logged, slash, same_path, pred_size}

-- Whether a call failed: `lstat` returns 0 if not, and `opendir` NULL if so.
abbrev pub is_failed : Call → Result → Bool
is_failed (Call.lstat fpath) r = not (is_zero r.value)
is_failed (Call.opendir fpath) r = is_zero r.value
is_failed c r = is_negative r.value

-- What a request returns: nothing of the call, its value as it is, or -errno if it failed and otherwise
-- its value or 0.
pub data Convention : Type 0 where
  ignored raw or_value or_zero : Convention

abbrev pub convention : Request → Convention
convention (Request.getattr path) = or_zero
convention (Request.readlink path size) = or_zero
convention (Request.opens path flags) = or_zero
convention (Request.opendir path) = or_zero
convention (Request.create path mode) = or_zero
convention (Request.truncate path newsize) = raw
convention (Request.fsync datasync fh) = raw
convention (Request.releasedir fh) = ignored
convention q = or_value

abbrev pub answer : Convention → Call → Result → ℤ
answer ignored c r = pos 0
answer raw c r = r.value
answer or_value c r = if is_failed c r then neg r.errno else r.value
answer or_zero c r = if is_failed c r then neg r.errno else pos 0

-- The path array has room for `rootdir`, the path and a zero byte.
abbrev pub fits : Kernel → List ℕ → List ℕ → Bool
fits kernel rootdir path = ltb (length rootdir + length path) kernel.path_max

-- The paths fit, and the names that `listxattr` finds can be logged: there are none, or a buffer has them
-- as strings.
abbrev pub fit : (kernel : Kernel) → List ℕ → Request → kernel.State → Bool
fit kernel rootdir (Request.getattr path) s = fits kernel rootdir path
fit kernel rootdir (Request.readlink path size) s = fits kernel rootdir path
fit kernel rootdir (Request.mknod path mode dev) s = fits kernel rootdir path
fit kernel rootdir (Request.mkdir path mode) s = fits kernel rootdir path
fit kernel rootdir (Request.unlink path) s = fits kernel rootdir path
fit kernel rootdir (Request.rmdir path) s = fits kernel rootdir path
fit kernel rootdir (Request.symlink path link) s = fits kernel rootdir link
fit kernel rootdir (Request.rename path newpath) s =
    fits kernel rootdir path && fits kernel rootdir newpath
fit kernel rootdir (Request.link path newpath) s =
    fits kernel rootdir path && fits kernel rootdir newpath
fit kernel rootdir (Request.chmod path mode) s = fits kernel rootdir path
fit kernel rootdir (Request.chown path uid gid) s = fits kernel rootdir path
fit kernel rootdir (Request.truncate path newsize) s = fits kernel rootdir path
fit kernel rootdir (Request.utime path actime modtime) s = fits kernel rootdir path
fit kernel rootdir (Request.opens path flags) s = fits kernel rootdir path
fit kernel rootdir (Request.statfs path) s = fits kernel rootdir path
fit kernel rootdir Request.flush s = true
fit kernel rootdir (Request.fsync datasync fh) s = true
fit kernel rootdir (Request.setxattr path name value size flags) s = fits kernel rootdir path
fit kernel rootdir (Request.getxattr path name size) s = fits kernel rootdir path
fit kernel rootdir (Request.listxattr path list_null size) s =
    let c = Call.llistxattr (rootdir ++ path) size in
    let r = (kernel.call c s).0 in
    fits kernel rootdir path && is_logged list_null (answer or_value c r) r.bytes
fit kernel rootdir (Request.removexattr path name) s = fits kernel rootdir path
fit kernel rootdir (Request.opendir path) s = fits kernel rootdir path
fit kernel rootdir (Request.releasedir fh) s = true
fit kernel rootdir Request.fsyncdir s = true
fit kernel rootdir (Request.access path mask) s = fits kernel rootdir path
fit kernel rootdir (Request.create path mode) s = fits kernel rootdir path
fit kernel rootdir (Request.ftruncate offset fh) s = true
fit kernel rootdir (Request.fgetattr path fh) s =
    if same_path path slash then fits kernel rootdir path else true

-- The call that a request stands for, on the path in the file system below.
abbrev pub translated : Kernel → List ℕ → Request → Option Call
translated kernel rootdir (Request.getattr path) = some (Call.lstat (rootdir ++ path))
translated kernel rootdir (Request.readlink path size) =
    some (Call.readlink (rootdir ++ path) (pred_size size))
translated kernel rootdir (Request.mknod path mode dev) =
    if kernel.s_isreg mode
    then some (Call.open_file (rootdir ++ path) kernel.exclusive (some mode))
    else if kernel.s_isfifo mode
    then some (Call.mkfifo (rootdir ++ path) mode)
    else some (Call.mknod (rootdir ++ path) mode dev)
translated kernel rootdir (Request.mkdir path mode) = some (Call.mkdir (rootdir ++ path) mode)
translated kernel rootdir (Request.unlink path) = some (Call.unlink (rootdir ++ path))
translated kernel rootdir (Request.rmdir path) = some (Call.rmdir (rootdir ++ path))
translated kernel rootdir (Request.symlink path link) = some (Call.symlink path (rootdir ++ link))
translated kernel rootdir (Request.rename path newpath) =
    some (Call.rename (rootdir ++ path) (rootdir ++ newpath))
translated kernel rootdir (Request.link path newpath) =
    some (Call.link (rootdir ++ path) (rootdir ++ newpath))
translated kernel rootdir (Request.chmod path mode) = some (Call.chmod (rootdir ++ path) mode)
translated kernel rootdir (Request.chown path uid gid) = some (Call.chown (rootdir ++ path) uid gid)
translated kernel rootdir (Request.truncate path newsize) =
    some (Call.truncate (rootdir ++ path) newsize)
translated kernel rootdir (Request.utime path actime modtime) =
    some (Call.utime (rootdir ++ path) actime modtime)
translated kernel rootdir (Request.opens path flags) =
    some (Call.open_file (rootdir ++ path) flags none)
translated kernel rootdir (Request.statfs path) = some (Call.statvfs (rootdir ++ path))
translated kernel rootdir Request.flush = none
translated kernel rootdir (Request.fsync datasync fh) =
    if kernel.have_fdatasync && datasync then some (Call.fdatasync fh) else some (Call.fsync fh)
translated kernel rootdir (Request.setxattr path name value size flags) =
    some (Call.lsetxattr (rootdir ++ path) name value size flags)
translated kernel rootdir (Request.getxattr path name size) =
    some (Call.lgetxattr (rootdir ++ path) name size)
translated kernel rootdir (Request.listxattr path list_null size) =
    some (Call.llistxattr (rootdir ++ path) size)
translated kernel rootdir (Request.removexattr path name) =
    some (Call.lremovexattr (rootdir ++ path) name)
translated kernel rootdir (Request.opendir path) = some (Call.opendir (rootdir ++ path))
translated kernel rootdir (Request.releasedir fh) = some (Call.closedir fh)
translated kernel rootdir Request.fsyncdir = none
translated kernel rootdir (Request.access path mask) = some (Call.access (rootdir ++ path) mask)
translated kernel rootdir (Request.create path mode) = some (Call.creat (rootdir ++ path) mode)
translated kernel rootdir (Request.ftruncate offset fh) = some (Call.ftruncate fh offset)
translated kernel rootdir (Request.fgetattr path fh) =
    if same_path path slash then some (Call.lstat (rootdir ++ path)) else some (Call.fstat fh)

-- A regular file that `mknod` creates is closed.
abbrev pub is_closed : Kernel → Request → Bool
is_closed kernel (Request.mknod path mode dev) = kernel.s_isreg mode
is_closed kernel q = false

-- A request carried out by the table; `closed` says if the new descriptor is closed.
abbrev pub carried_out :
    (kernel : Kernel) → Convention → (closed : Bool) → Option Call → kernel.State → ℤ × kernel.State
carried_out kernel how closed none s = (pos 0, s)
carried_out kernel how closed (some c) s =
    let r = (kernel.call c s).0 in
    let s' = (kernel.call c s).1 in
    let closing = kernel.call (Call.close r.value) s' in
    if closed && not (is_failed c r)
    then (answer or_value (Call.close r.value) closing.0, closing.1)
    else (answer how c r, s')

abbrev pub reference : (kernel : Kernel) → List ℕ → Request → kernel.State → ℤ × kernel.State
reference kernel rootdir q s =
    carried_out kernel (convention q) (is_closed kernel q) (translated kernel rootdir q) s

-- A request whose operation is not compiled in.
abbrev pub is_missing : Kernel → Request → Bool
is_missing kernel (Request.setxattr path name value size flags) = not kernel.have_sys_xattr_h
is_missing kernel (Request.getxattr path name size) = not kernel.have_sys_xattr_h
is_missing kernel (Request.listxattr path list_null size) = not kernel.have_sys_xattr_h
is_missing kernel (Request.removexattr path name) = not kernel.have_sys_xattr_h
is_missing kernel q = false

abbrev pub outcome : (kernel : Kernel) → List ℕ → Request → kernel.State → Option (ℤ × kernel.State)
outcome kernel rootdir q s =
    if is_missing kernel q
    then some (neg enosys, s)
    else if fit kernel rootdir q s
    then some (reference kernel rootdir q s)
    else none
