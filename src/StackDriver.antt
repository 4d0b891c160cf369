-- ===== src/StackDriver.antt =====
-- hw1/hw1_driver.c: a character device that keeps a stack of 256 integers behind a mutex. Each
-- entry point holds `my_mutex` around its one call of `modifyStack`, so a call is one step here.
-- The array has 257 cells, as in the source. `none` as a returned integer is a value that the C
-- function never set (the CLEAN branch) or read outside the array.
pub mod Spec
pub mod Valid
pub mod Refine
pub mod Clients
mod Tests
use ee.Base.{
  ℕ, suc, ◌+◌, Bool, true, false, not, Option, none, some, List, [], ◌∷◌, ◌==◌, if◌then◌else◌,
  get_elem?, set, replicate,
}
use ee.Base.Int.{ℤ, pos, negsuc, suc_ℤ, pred_ℤ, eqb_ℤ, signed_char}

abbrev pub push_type : ℕ
push_type = 0x1234

abbrev pub pop_type : ℕ
pop_type = 0x1235

abbrev pub clean_type : ℕ
clean_type = 0x1236

-- What a push on a full stack and a pop of an empty one return.
abbrev pub refused : ℤ
refused = pos 0x7fffffff

-- `stack` and `stackpointer`.
pub record Driver : Type 0 where
  pub stack : List ℤ
  pub stackpointer : ℤ

-- The state after loading the module: statics are zero but for `stackpointer`.
abbrev pub initial : Driver
initial = record { stack = replicate 257 (pos 0); stackpointer = negsuc 0 }

unfoldable pub empty : Driver → Bool
empty d = if eqb_ℤ d.stackpointer (negsuc 0) then true else false

unfoldable pub size : Driver → ℤ
size d = suc_ℤ d.stackpointer

unfoldable pub full : Driver → Bool
full d = if eqb_ℤ d.stackpointer (pos 255) then true else false

-- `stack[i]` read and written at a signed index.
abbrev pub load : List ℤ → ℤ → Option ℤ
load xs (pos i) = get_elem? xs i
load xs (negsuc i) = none

abbrev pub store : List ℤ → ℤ → ℤ → List ℤ
store xs (pos i) v = set xs i v
store xs (negsuc i) v = xs

-- The PUSH and POP branches of `modifyStack`.
unfoldable pub push_branch : ℤ → Driver → Option ℤ × Driver
unfolding full size
push_branch v d =
    if not (full d)
    then (let sp = suc_ℤ d.stackpointer in
        let d' : Driver = record { stack = store d.stack sp v; stackpointer = sp } in
        (some (size d'), d'))
    else (some refused, d)

unfoldable pub pop_branch : Driver → Option ℤ × Driver
unfolding empty
pop_branch d =
    if not (empty d)
    then (load d.stack d.stackpointer, record d { stackpointer = pred_ℤ d.stackpointer })
    else (some refused, d)

unfoldable pub modify_stack : ℕ → ℤ → Driver → Option ℤ × Driver
modify_stack type v d =
    if type == push_type
    then push_branch v d
    else if type == pop_type
    then pop_branch d
    else if type == clean_type
    then (none, record d { stackpointer = negsuc 0 })
    else (some refused, d)

unfoldable pub push : ℤ → Driver → Option ℤ × Driver
push v d = modify_stack push_type v d

unfoldable pub pop : Driver → Option ℤ × Driver
pop d = modify_stack pop_type (pos 0) d

-- `if (k == 0x7fffffff) return -1; return k;`
abbrev pub read_result : Option ℤ → Option ℤ
read_result none = none
read_result (some k) = if eqb_ℤ k refused then some (negsuc 0) else some k

unfoldable pub hw1_read : Driver → Option ℤ × Driver
hw1_read d = let (k, d') = pop d in (read_result k, d')

-- The argument is `buffer[0]`, a byte that `const char *` reads with its sign.
unfoldable pub hw1_write : ℕ → Driver → Option ℤ × Driver
hw1_write b d = push (signed_char b) d

unfoldable pub hw1_ioctl : ℕ → Driver → Option ℤ × Driver
hw1_ioctl cmd d =
    if cmd == 0 then (some (pos 0), (modify_stack clean_type (pos 0) d).1) else (some (pos 0), d)

-- The system calls of a client on the device file, and what each returns.
pub data Request : Type 0 where
  read : Request
  write : ℕ → Request
  ioctl : ℕ → Request

unfoldable pub serve : Request → Driver → Option ℤ × Driver
serve read d = hw1_read d
serve (write b) d = hw1_write b d
serve (ioctl cmd) d = hw1_ioctl cmd d

unfoldable pub run : Driver → List Request → List (Option ℤ)
run d [] = []
run d (r ∷ rs) = let (k, d') = serve r d in k ∷ run d' rs
