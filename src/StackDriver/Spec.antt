-- ===== src/StackDriver/Spec.antt =====
-- What the device of hw1/hw1_driver.c promises: a stack of at most 256 values, the top first.
use ee.Base.{ℕ, ◌+◌, Option, some, List, [], ◌∷◌, ◌==◌, if◌then◌else◌, length}
use ee.Base.Int.{ℤ, pos, negsuc, signed_char}
use ee.StackDriver.{Request, read, write, ioctl}

abbrev pub capacity : ℕ
capacity = 256

-- `read` answers -1 on an empty stack; `write` answers the new size, or INT_MAX and no change when
-- the stack is full; `ioctl` 0 empties it, any other command does nothing.
unfoldable pub answer : Request → List ℤ → ℤ × List ℤ
answer read [] = (negsuc 0, [])
answer read (x ∷ s) = (x, s)
answer (write b) s =
    if length s == capacity then (pos 0x7fffffff, s) else (pos (length s + 1), signed_char b ∷ s)
answer (ioctl cmd) s = if cmd == 0 then (pos 0, []) else (pos 0, s)

unfoldable pub answers : List ℤ → List Request → List (Option ℤ)
answers s [] = []
answers s (r ∷ rs) = let (k, s') = answer r s in some k ∷ answers s' rs
