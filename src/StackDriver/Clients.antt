-- ===== src/StackDriver/Clients.antt =====
-- The programs hw1/provider.c, hw1/consumer.c and hw1/cleaner.c on the device. A turn is one round of a
-- loop; the results of `rand` and `time` are arguments, and `libc` is what the library makes of the result
-- of a system call.
pub mod Agree
use ee.Base.{ℕ, ◌+◌, ◌%◌, Option, none, some, List, [], ◌∷◌, ◌==◌, if◌then◌else◌, Bool, true, false}
use ee.Base.Int.{ℤ, pos, negsuc, eqb_ℤ}
use ee.StackDriver.{Driver, read, write, ioctl, serve, refused}

-- What the programs print.
pub data Message : Type 0 where
  stack_full : Message
  pushed : (p : ℕ) (size : ℤ) → Message
  stack_empty : Message
  popped : (f : ℤ) → Message
  make_clean : Message

pub data Turn : Type 0 where
  provider : (rand time : ℕ) → Turn
  consumer : Turn
  cleaner : (rand : ℕ) → Turn

-- The value that the provider pushes.
abbrev pub chosen : (rand time : ℕ) → ℕ
chosen rand time = time % (60000 + rand % 250000) % 127

abbrev pub provider_message : ℕ → ℤ → Message
provider_message p s = if eqb_ℤ s refused then stack_full else pushed p s

abbrev pub consumer_message : ℤ → Message
consumer_message f = if eqb_ℤ f (negsuc 0) then stack_empty else popped f

-- `none` for what is printed if the driver returns an undefined value.
abbrev pub shown : (ℤ → Message) → Option ℤ → Option Message
shown f none = none
shown f (some k) = some (f k)

module _ (libc : ℤ → ℤ) where
  unfoldable pub provide : (rand time : ℕ) → Driver → List (Option Message) × Driver
  provide rand time d =
      let p = chosen rand time in
      let (s, d') = serve (write p) d in (shown (λ k. provider_message p (libc k)) s ∷ [], d')

  unfoldable pub consume : Driver → List (Option Message) × Driver
  consume d = let (f, d') = serve read d in (shown (λ k. consumer_message (libc k)) f ∷ [], d')

  unfoldable pub clean : (rand : ℕ) → Driver → List (Option Message) × Driver
  clean rand d =
      let (k, d') = serve (ioctl 0) d in
      if 1 + rand % 5 == 2 then (some make_clean ∷ [], d') else ([], d)

  -- A turn prints at most one message.
  unfoldable pub turn : Turn → Driver → List (Option Message) × Driver
  turn (provider rand time) d = provide rand time d
  turn consumer d = consume d
  turn (cleaner rand) d = clean rand d

  unfoldable pub turns : List Turn → Driver → List (List (Option Message))
  turns [] d = []
  turns (t ∷ ts) d = let (printed, d') = turn t d in printed ∷ turns ts d'
