-- ===== src/LinkedList/Clients/Ledger.antt =====
-- What the readers and writers of project5/task1/reader_writer_skel.c print, and what the list holds.
use mathlib.Core.Path.{subst}
use mathlib.Core.Option.{some-injective}
use ee.Base.{
  if◌then◌else◌, ltb, ℕ, zero, suc, ◌+◌, ◌*◌, ◌%◌, ◌^◌, ◌<◌, ◌≤◌, ◌≡◌, refl, sym, ap, ◌∙◌, Option,
  some, List, [], ◌∷◌, ltb, true, false, All, arith, dec_lt, Bool-cases, inl, inr,
}
use ee.Base.Int.{ℤ, pos, negsuc, signed_char}
use ee.Base.Update.{total, total-update}
use ee.LinkedList.{Device, serve, dummy_read}
use ee.LinkedList.Bag.{IsValid, occurs, times, IsDigit, write-Added, read-Removed, empty-IsValid}
use ee.LinkedList.Clients.{
  num_read, num_write, num_loop, Message, write_failed, write_succeeded, read_failed,
  read_succeeded, read_message, System, after_round, write_func, read_func, Step, reader, writer,
  start, Reach, begin, next,
}

-- How often a message reports that `w` was stored, and that it was taken.
abbrev stores : ℤ → Message → ℕ
stores w (write_succeeded v) = times w (pos v)
stores w m = 0

abbrev takes : ℤ → Message → ℕ
takes w (read_succeeded v) = times w v
takes w m = 0

abbrev pub stored : ℤ → List Message → ℕ
stored w [] = 0
stored w (m ∷ l) = stores w m + stored w l

abbrev pub taken : ℤ → List Message → ℕ
taken w [] = 0
taken w (m ∷ l) = takes w m + taken w l

-- No message of a failed write.
abbrev pub IsFine : Message → Type 0
IsFine (write_failed v) = true ≡ false
IsFine m = Unit

drawn : (rand : ℕ) → signed_char (rand % 10) ≡ pos (rand % 10)
drawn rand = ground arith

drawn-IsDigit : (rand : ℕ) → IsDigit (signed_char (rand % 10))
drawn-IsDigit rand = ground arith

-- One round on a valid device: the message accounts for what changes in the list.
record Round (d : Device) (o : Option (Message × Device)) : Type 0 where
  message : Message
  device : Device
  result : o ≡ some (message, device)
  valid : IsValid device
  longer : device.size ≤ d.size + 1
  fine : IsFine message
  change : (w : ℤ) → stores w message + occurs w d.head ≡ takes w message + occurs w device.head

shown : (n : ℕ) (kept : ℤ) → read_message n kept (pos n) ≡ read_succeeded kept
shown n kept = ground arith

module _ (libc : ℤ → ℤ) (passes : (n : ℕ) → libc (pos n) ≡ pos n)
    (fails : libc (negsuc 0) ≡ negsuc 0) where
  writing :
      (rand random : ℕ) (d : Device)
      → IsValid d
      → d.size + 1 < 2 ^ 32
      → Round d (write_func libc rand random d)
  unfolding write_func serve
  writing rand random d v room =
      let (d', e, a) =
        write-Added 4 (rand % 10) random d v room (omega arith) (drawn-IsDigit rand) in
      record {
        message = write_succeeded (rand % 10);
        device = d';
        result = rw (e, passes, write_func) refl;
        valid = a.valid;
        longer = omega (arith, a.size);
        fine = tt;
        change = λ w. omega (arith, a.more w, ap (times w) (drawn rand));
      }

  found :
      (rand : ℕ) (d d' : Device) (k : ℤ)
      → dummy_read 4 (rand % 10) d ≡ some (k, d')
      → IsValid d'
      → d'.size ≤ d.size + 1
      → k ≡ pos (rand % 10)
      → ((w : ℤ) → occurs w d.head ≡ occurs w d'.head + times w (pos (rand % 10)))
      → Round d (read_func libc rand d)
  unfolding read_func serve
  found rand d d' k e v l a c = record {
    message = read_succeeded (pos (rand % 10));
    device = d';
    result = rw (e, a, passes, shown (rand % 10) (pos (rand % 10)), read_func) refl;
    valid = v;
    longer = l;
    fine = tt;
    change = λ w. omega (arith, c w);
  }

  missed :
      (rand : ℕ) (d d' : Device) (k : ℤ)
      → dummy_read 4 (rand % 10) d ≡ some (k, d')
      → IsValid d'
      → d'.size ≤ d.size + 1
      → k ≡ negsuc 0
      → ((w : ℤ) → occurs w d.head ≡ occurs w d'.head)
      → Round d (read_func libc rand d)
  unfolding read_func serve
  missed rand d d' k e v l a c = record {
    message = read_failed (rand % 10);
    device = d';
    result = rw (e, a, fails, read_func) refl;
    valid = v;
    longer = l;
    fine = tt;
    change = λ w. omega (arith, c w);
  }

  reading : (rand : ℕ) (d : Device) → IsValid d → Round d (read_func libc rand d)
  reading rand d v =
      let (k, d', e, v', l, a, c) = read-Removed 4 (rand % 10) d v (omega arith) in
      elim (Bool-cases (ltb 0 (occurs (signed_char (rand % 10)) d.head))) [
        | inl h ↦
            found rand d d' k e v' (ground (arith, l, h)) (rw (h) at a ∙ drawn rand)
              (λ w. rw (h, drawn rand) at c w)
        | inr h ↦
            missed rand d d' k e v' (ground (arith, l, h)) (rw (h) at a)
              (λ w. omega (arith, rw (h) at c w))
      ]

total_le : (k : ℕ) (f : ℕ → ℕ) → ((i : ℕ) → f i ≤ 100) → total (λ n. n) k f ≤ k * 100
unfolding total
total_le zero f h = omega arith
total_le (suc k) f h = omega (arith, h k, total_le k f h)

record Inv (s : System) : Type 0 where
  valid : IsValid s.device
  sized : s.device.size ≤ total (λ n. n) 20 s.rounds
  bounded : (t : ℕ) → s.rounds t ≤ 100
  fine : All IsFine s.printed
  balance : (w : ℤ) → stored w s.printed ≡ taken w s.printed + occurs w s.device.head

start-Inv : Inv start
unfolding occurs
start-Inv = record {
  valid = empty-IsValid;
  sized = omega arith;
  bounded = λ t. omega arith;
  fine = tt;
  balance = λ w. refl;
}

room : (s : System) → Inv s → s.device.size + 1 < 2 ^ 32
room s i = omega (arith, i.sized, total_le 20 s.rounds i.bounded)

round-Inv :
    (s : System) (t : ℕ) {o : Option (Message × Device)} {m : Message} {d : Device}
    → Inv s
    → t < 20
    → s.rounds t < 100
    → Round s.device o
    → o ≡ some (m, d)
    → Inv (after_round t m d s)
round-Inv s t {o} {m} {d} i lt more r e =
    subst (λ x. Inv (after_round t x.0 x.1 s)) (some-injective _ _ (sym r.result ∙ e))
      (record {
        valid = r.valid;
        sized =
            omega
              (arith, i.sized, r.longer, total-update (λ n. n) 20 s.rounds t (suc (s.rounds t)) lt);
        bounded = λ t'. ground (arith, i.bounded t');
        fine = (r.fine, i.fine);
        balance = λ w. omega (arith, i.balance w, r.change w);
      })

module _ (libc : ℤ → ℤ) (passes : (n : ℕ) → libc (pos n) ≡ pos n)
    (fails : libc (negsuc 0) ≡ negsuc 0) where
  Reach-Inv : {s : System} → Reach libc s → Inv s
  Reach-Inv begin = start-Inv
  Reach-Inv (next {s} r (reader t rand lt more e)) =
      let i = Reach-Inv r in
      round-Inv s t i (omega arith) more (reading libc passes fails rand s.device i.valid) e
  Reach-Inv (next {s} r (writer t rand random ge lt more e)) =
      let i = Reach-Inv r in
      round-Inv s t i lt more (writing libc passes fails rand random s.device i.valid (room s i)) e

-- However the rounds of the ten readers and ten writers interleave, if the library passes on results that
-- are not negative and -1: no write fails, and for every value, the lines that report a write of it are
-- as many as those that report a read of it and the nodes that still hold it together. The counter of
-- the device is the number of its nodes.
pub nothing_lost :
    (libc : ℤ → ℤ)
    → ((n : ℕ) → libc (pos n) ≡ pos n)
    → libc (negsuc 0) ≡ negsuc 0
    → {s : System} → Reach libc s
    → IsValid s.device
      × All IsFine s.printed
      × ((w : ℤ) → stored w s.printed ≡ taken w s.printed + occurs w s.device.head)
nothing_lost libc passes fails r =
    let i = Reach-Inv libc passes fails r in (i.valid, i.fine, i.balance)

-- The round of thread `t`.
abbrev pub round : (ℤ → ℤ) → (t rand random : ℕ) → Device → Option (Message × Device)
round libc t rand random d =
    if ltb t num_read then read_func libc rand d else write_func libc rand random d

-- In every such state a thread with rounds left can do the next one, for any random numbers that it and
-- the device draw: the round with just these numbers follows no null pointer and takes no remainder
-- by zero, and it is a step of the system.
pub round_served :
    (libc : ℤ → ℤ)
    → ((n : ℕ) → libc (pos n) ≡ pos n)
    → libc (negsuc 0) ≡ negsuc 0
    → {s : System} → Reach libc s
    → (t rand random : ℕ) → t < num_read + num_write
    → s.rounds t < num_loop
    → (m : Message) × (d : Device) × (round libc t rand random s.device ≡ some (m, d))
      × Step libc s (after_round t m d s)
round_served libc passes fails {s} r t rand random lt more =
    let i = Reach-Inv libc passes fails r in
    let w = writing libc passes fails rand random s.device i.valid (room s i) in
    let g = reading libc passes fails rand s.device i.valid in
    elim (dec_lt t num_read) [
      | yes h ↦
          let e : ltb t num_read ≡ true = ground arith in
          (g.message, g.device, rw (e, round) g.result, reader t rand h more g.result)
      | no h ↦
          let e : ltb t num_read ≡ false = ground arith in
          (
            w.message,
            w.device,
            rw (e, round) w.result,
            writer t rand random (omega arith) lt more w.result,
          )
    ]
