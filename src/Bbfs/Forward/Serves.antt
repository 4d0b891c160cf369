-- ===== src/Bbfs/Forward/Serves.antt =====
-- The operations of project4/bbfs.c against the table of their calls.
use mathlib.Core.Option
use ee.Base.{
  ℕ, ◌+◌, ◌≡◌, refl, ap, Bool, true, false, not, Option, none, some, List, [], ◌∷◌, ◌++◌,
  if◌then◌else◌, ◌&&◌, length, take, ltb, arith, zero, suc, ◌≤◌, dec_lt, length-append, length-take,
}
use ee.Base.Int.{ℤ, pos, negsuc}
use ee.Bbfs.Read.{◌>>=◌}
use ee.Bbfs.Forward.{Call, Result, Kernel, Reply, Request, neg, is_negative, is_zero}
use ee.Bbfs.Forward.Operations.{
  enosys, is_logged, slash, same_path, forward, opened, checked, close_new, bb_fullpath, bb_getattr,
  bb_readlink, bb_mknod, bb_mkdir, bb_unlink, bb_rmdir, bb_symlink, bb_rename, bb_link, bb_chmod,
  bb_chown, bb_truncate, bb_utime, bb_open, bb_statfs, bb_flush, bb_fsync, bb_setxattr, bb_getxattr,
  bb_listxattr, bb_removexattr, bb_opendir, bb_releasedir, bb_fsyncdir, bb_access, bb_create,
  bb_ftruncate, bb_fgetattr, bb_oper, unchanged, nonzero_is_error,
}
use ee.Bbfs.Forward.Table.{
  fits, fit, reference, outcome, answer, carried_out, Convention, raw, or_value, or_zero,
}

take_all : (n : ℕ) (l : List ℕ) → length l ≤ n → take n l ≡ l
take_all zero [] h = refl
take_all zero (x ∷ l) h = absurd (omega arith)
take_all (suc n) [] h = refl
take_all (suc n) (x ∷ l) h = ap (λ t. x ∷ t) (take_all n l (omega arith))

-- What an operation returns of a reply.
abbrev pub status : {S : Type 0} → Reply × S → ℤ × S
status (rep, s) = (rep.retstat, s)

abbrev pub when : {S : Type 0} → Bool → ℤ × S → Option (ℤ × S)
when b x = if b then some x else none

module _ (kernel : Kernel) (rootdir : List ℕ) where
  open kernel use {
    State, call, s_isreg, s_isfifo, exclusive, have_fdatasync, have_sys_xattr_h, path_max,
  }

  too_long :
      (path : List ℕ)
      → path_max ≤ length rootdir + length path
      → ltb (length (rootdir ++ take path_max path)) path_max ≡ false
  too_long path h =
      ground (arith, length-append rootdir (take path_max path), length-take path_max path)

  not_fit :
      (path : List ℕ) → path_max ≤ length rootdir + length path → fits kernel rootdir path ≡ false
  not_fit path h = ground arith

  bb_fullpath_lem :
      (path : List ℕ)
      → bb_fullpath kernel rootdir path
        ≡ (if fits kernel rootdir path then some (rootdir ++ path) else none)
  unfolding bb_fullpath
  bb_fullpath_lem path = elim (dec_lt (length rootdir + length path) path_max) [
    | yes h ↦ rw (take_all path_max path (omega arith), length-append rootdir path)
    | no h ↦ rw (too_long path (omega arith), not_fit path (omega arith))
  ]

  located :
      (path : List ℕ) (k : List ℕ → Option (Reply × State)) (x : ℤ × State)
      → Option.map status (k (rootdir ++ path)) ≡ some x
      → Option.map status (bb_fullpath kernel rootdir path >>= k)
        ≡ when (fits kernel rootdir path) x
  located path k x h = rw (bb_fullpath_lem path) (by_fit (fits kernel rootdir path))
    where
      by_fit :
          (a : Bool)
          → Option.map status ((if a then some (rootdir ++ path) else none) >>= k) ≡ when a x
      by_fit true = h
      by_fit false = refl

  located_both :
      (path newpath : List ℕ) (k : List ℕ → List ℕ → Option (Reply × State)) (x : ℤ × State)
      → Option.map status (k (rootdir ++ path) (rootdir ++ newpath)) ≡ some x
      → Option.map status
          (bb_fullpath kernel rootdir path >>= (λ f. bb_fullpath kernel rootdir newpath >>= k f))
        ≡ when (fits kernel rootdir path && fits kernel rootdir newpath) x
  located_both path newpath k x h =
      rw (bb_fullpath_lem path, bb_fullpath_lem newpath)
        (by_fit (fits kernel rootdir path) (fits kernel rootdir newpath))
    where
      by_fit :
          (a b : Bool)
          → Option.map status (
              (if a then some (rootdir ++ path) else none)
              >>= (λ f. (if b then some (rootdir ++ newpath) else none) >>= k f))
            ≡ when (a && b) x
      by_fit true true = h
      by_fit true false = refl
      by_fit false b = refl

  -- What a request is to return.
  abbrev pub Serves : Request → State → Option (Reply × State) → Type 0
  Serves q s o = Option.map status o ≡ when (fit kernel rootdir q s) (reference kernel rootdir q s)

  getattr_answer :
      (v e : ℤ) → (if is_zero v then pos 0 else e) ≡ (if not (is_zero v) then e else pos 0)
  getattr_answer (pos zero) e = refl
  getattr_answer (pos (suc n)) e = refl
  getattr_answer (negsuc n) e = refl

  fgetattr_answer :
      (v e : ℤ) → (if is_zero v then pos 0 else e) ≡ (if not (is_zero v) then e else v)
  fgetattr_answer (pos zero) e = refl
  fgetattr_answer (pos (suc n)) e = refl
  fgetattr_answer (negsuc n) e = refl

  fetching :
      (path : List ℕ) (s : State) (how : Convention)
      → ((r : Result) → nonzero_is_error r ≡ answer how (Call.lstat (rootdir ++ path)) r)
      → Option.map status (bb_getattr kernel rootdir path s)
        ≡ when
            (fits kernel rootdir path)
            (carried_out kernel how false (some (Call.lstat (rootdir ++ path))) s)
  unfolding bb_getattr forward
  fetching path s how h = located path _ _ (rw (h (call (Call.lstat (rootdir ++ path)) s).0) refl)

  fetching_open :
      (path : List ℕ) (fh : ℤ) (s : State)
      → Serves (Request.fgetattr path fh) s (bb_fgetattr kernel rootdir path fh s)
  unfolding bb_fgetattr forward
  fetching_open path fh s = by_path (same_path path slash)
    where
      by_path :
          (b : Bool)
          → Option.map status (
              if b
              then bb_getattr kernel rootdir path s
              else forward kernel rootdir checked (Call.fstat fh) s)
            ≡ when (if b then fits kernel rootdir path else true) (
                carried_out kernel or_value false
                  (if b then some (Call.lstat (rootdir ++ path)) else some (Call.fstat fh))
                  s)
      by_path true = fetching path s or_value (λ r. fgetattr_answer r.value (neg r.errno))
      by_path false = refl

  syncing :
      (datasync : Bool) (fh : ℤ) (s : State)
      → Serves (Request.fsync datasync fh) s (bb_fsync kernel rootdir datasync fh s)
  unfolding bb_fsync forward
  syncing datasync fh s = by_config (have_fdatasync && datasync)
    where
      by_config :
          (b : Bool)
          → Option.map status (
              if b
              then forward kernel rootdir unchanged (Call.fdatasync fh) s
              else forward kernel rootdir unchanged (Call.fsync fh) s)
            ≡ some (
                carried_out kernel raw false
                  (if b then some (Call.fdatasync fh) else some (Call.fsync fh))
                  s)
      by_config true = refl
      by_config false = refl

  making :
      (path : List ℕ) (mode dev : ℕ) (s : State)
      → Serves (Request.mknod path mode dev) s (bb_mknod kernel rootdir path mode dev s)
  unfolding bb_mknod forward
  making path mode dev s = located path _ _ (by_type (s_isreg mode) (s_isfifo mode))
    where
      f : List ℕ
      f = rootdir ++ path

      made : Call
      made = Call.open_file f exclusive (some mode)

      by_sign :
          (r : Result) (s : State) (b : Bool)
          → Option.map status (
              if b
              then some (record { retstat = neg r.errno; buffer = r.bytes; fh = pos 0 }, s)
              else forward kernel rootdir checked (Call.close r.value) s)
            ≡ some (
                if not b
                then (
                  answer or_value (Call.close r.value) (call (Call.close r.value) s).0,
                  (call (Call.close r.value) s).1,
                )
                else (if b then neg r.errno else r.value, s))
      by_sign r s true = refl
      by_sign r s false = refl

      by_type :
          (reg fifo : Bool)
          → Option.map status (
              if reg
              then close_new kernel rootdir (call made s).0 (call made s).1
              else if fifo
              then forward kernel rootdir checked (Call.mkfifo f mode) s
              else forward kernel rootdir checked (Call.mknod f mode dev) s)
            ≡ some (
                carried_out kernel or_value reg
                  (if reg
                    then some made
                    else if fifo
                    then some (Call.mkfifo f mode)
                    else some (Call.mknod f mode dev))
                  s)
      by_type true fifo =
          by_sign (call made s).0 (call made s).1 (is_negative (call made s).0.value)
      by_type false true = refl
      by_type false false = refl

  -- The names that `listxattr` finds are logged, if that is defined.
  listing :
      (path : List ℕ) (list_null : Bool) (size : ℕ) (s : State)
      → Serves
          (Request.listxattr path list_null size)
          s
          (bb_listxattr kernel rootdir path list_null size s)
  unfolding bb_listxattr
  listing path list_null size s = rw (bb_fullpath_lem path) (by_fit (fits kernel rootdir path))
    where
      c : Call
      c = Call.llistxattr (rootdir ++ path) size

      r : Result × State
      r = call c s

      by_fit :
          (a : Bool)
          → Option.map status (
              (if a then some (rootdir ++ path) else none) >>= (λ f.
                let r = call (Call.llistxattr f size) s in
                if is_logged list_null (checked r.0) r.0.bytes
                then some (record { retstat = checked r.0; buffer = r.0.bytes; fh = pos 0 }, r.1)
                else none))
            ≡ when
                (a && is_logged list_null (answer or_value c r.0) r.0.bytes)
                (answer or_value c r.0, r.1)
      by_fit true = by_log (is_logged list_null (answer or_value c r.0) r.0.bytes)
        where
          by_log :
              (b : Bool)
              → Option.map status (
                  if b
                  then some (record { retstat = checked r.0; buffer = r.0.bytes; fh = pos 0 }, r.1)
                  else none)
                ≡ when b (answer or_value c r.0, r.1)
          by_log true = refl
          by_log false = refl
      by_fit false = refl

  optional :
      (s : State) (b : Bool) (o : Option (Reply × State)) {x : Option (ℤ × State)}
      → Option.map status o ≡ x
      → Option.map status
          (if b then o else some (record { retstat = neg enosys; buffer = []; fh = pos 0 }, s))
        ≡ (if not b then some (neg enosys, s) else x)
  optional s true o e = e
  optional s false o e = refl

  serving :
      (q : Request) (s : State)
      → Option.map status (bb_oper kernel rootdir q s) ≡ outcome kernel rootdir q s
  unfolding bb_oper bb_readlink bb_mkdir bb_unlink bb_rmdir bb_symlink bb_rename bb_link bb_chmod
      bb_chown bb_truncate bb_utime bb_open bb_statfs bb_flush bb_setxattr bb_getxattr bb_listxattr
      bb_removexattr bb_opendir bb_releasedir bb_fsyncdir bb_access bb_create bb_ftruncate forward
      opened
  serving (Request.getattr path) s =
      fetching path s or_zero (λ r. getattr_answer r.value (neg r.errno))
  serving (Request.readlink path size) s = located path _ _ refl
  serving (Request.mkdir path mode) s = located path _ _ refl
  serving (Request.unlink path) s = located path _ _ refl
  serving (Request.rmdir path) s = located path _ _ refl
  serving (Request.truncate path newsize) s = located path _ _ refl
  serving (Request.chmod path mode) s = located path _ _ refl
  serving (Request.chown path uid gid) s = located path _ _ refl
  serving (Request.utime path actime modtime) s = located path _ _ refl
  serving (Request.statfs path) s = located path _ _ refl
  serving (Request.setxattr path name value size flags) s =
      optional s have_sys_xattr_h _ (located path _ _ refl)
  serving (Request.getxattr path name size) s =
      optional s have_sys_xattr_h _ (located path _ _ refl)
  serving (Request.listxattr path list_null size) s =
      optional s have_sys_xattr_h _ (listing path list_null size s)
  serving (Request.removexattr path name) s = optional s have_sys_xattr_h _ (located path _ _ refl)
  serving (Request.access path mask) s = located path _ _ refl
  serving (Request.opens path flags) s = located path _ _ refl
  serving (Request.opendir path) s = located path _ _ refl
  serving (Request.create path mode) s = located path _ _ refl
  serving (Request.symlink path link) s = located link _ _ refl
  serving (Request.rename path newpath) s = located_both path newpath _ _ refl
  serving (Request.link path newpath) s = located_both path newpath _ _ refl
  serving Request.flush s = refl
  serving Request.fsyncdir s = refl
  serving (Request.mknod path mode dev) s = making path mode dev s
  serving (Request.fsync datasync fh) s = syncing datasync fh s
  serving (Request.releasedir fh) s = refl
  serving (Request.ftruncate offset fh) s = refl
  serving (Request.fgetattr path fh) s = fetching_open path fh s

-- For every request, if each of its paths fits behind `rootdir` into PATH_MAX bytes, the operation
-- makes the one call that the table names, on those paths (none for `flush` and `fsyncdir`), and closes
-- a regular file that `mknod` opened. It returns -errno if the last call failed, and otherwise its value,
-- or 0 for `getattr`, `readlink`, `open`, `opendir` and `create`; but `truncate` and `fsync` return the
-- value of the call also if it failed, and `releasedir` returns 0. If a path does not fit, the operation
-- is undefined. So is `listxattr` if its call returns a positive value and there is no buffer, or the
-- buffer does not hold strings that end with a zero byte. Where HAVE_SYS_XATTR_H is not defined, the four
-- requests for extended attributes make no call and get -ENOSYS.
pub bb_oper_serves :
    (kernel : Kernel) (rootdir : List ℕ) (q : Request) (s : kernel.State)
    → Option.map status (bb_oper kernel rootdir q s) ≡ outcome kernel rootdir q s
bb_oper_serves kernel rootdir q s = serving kernel rootdir q s
