-- ===== src/StackDriver/Refine.antt =====
-- The device of hw1/hw1_driver.c compared with the bounded stack of its contents.
use mathlib.Core.Path.{subst}
use ee.Base.{
  ℕ, zero, suc, ◌≤◌, ◌<◌, ◌≡◌, refl, sym, ap, ◌∙◌, Option, some, List, [], ◌∷◌, arith, dec_lt,
  length, set, All, length-set, get_or-set_self, get_elem?-eq-get_or,
}
use ee.Base.Int.{ℤ, pos, negsuc, pos_part, neg_part, suc_ℤ, signed_char}
use ee.StackDriver.{
  Driver, Request, read, write, ioctl, push_branch, pop_branch, modify_stack, push, pop, hw1_read,
  hw1_write, hw1_ioctl, serve, run, refused, initial,
}
use ee.StackDriver.Spec.{answer, answers}
use ee.StackDriver.Valid.{IsChar, IsValid, contents, count, view, length-view, view-set}

-- What one request does, seen from outside.
record Served (r : Request) (d : Driver) (out : Option ℤ × Driver) : Type 0 where
  reply : out.0 ≡ some (answer r (contents d)).0
  left : contents out.1 ≡ (answer r (contents d)).1
  valid : IsValid out.1

module _ (stack : List ℤ) where
  -- The driver that holds `n` values.
  abbrev holding : ℕ → Driver
  holding zero = record { stack = stack; stackpointer = negsuc 0 }
  holding (suc n) = record { stack = stack; stackpointer = pos n }

  read-Served : (n : ℕ) → IsValid (holding n) → Served read (holding n) (hw1_read (holding n))
  unfolding hw1_read pop modify_stack pop_branch answer
  read-Served zero v = record { reply = refl; left = refl; valid = v }
  read-Served (suc n) v =
      let got = get_elem?-eq-get_or stack n (pos 0) (omega arith) in
      record { reply = ground arith; left = ground arith; valid = ground arith }

  push_room :
      (v : ℤ) (n : ℕ)
      → n < 256
      → push v (holding n)
        ≡ (some (pos (suc n)), record { stack = set stack n v; stackpointer = pos n })
  unfolding push modify_stack push_branch
  push_room v zero h = refl
  push_room v (suc n) h = ground arith

  push_full : (v : ℤ) (n : ℕ) → n ≡ 256 → push v (holding n) ≡ (some refused, holding n)
  unfolding push modify_stack push_branch
  push_full v zero h = absurd (omega arith)
  push_full v (suc n) h = ground arith

  answer_room :
      (b n : ℕ)
      → n < 256
      → answer (write b) (view stack n) ≡ (pos (suc n), signed_char b ∷ view stack n)
  unfolding answer
  answer_room b n h = ground (arith, length-view stack n)

  answer_full : (b n : ℕ) → n ≡ 256 → answer (write b) (view stack n) ≡ (refused, view stack n)
  unfolding answer
  answer_full b n h = ground (arith, length-view stack n)

  contents-holding : (n : ℕ) → contents (holding n) ≡ view stack n
  contents-holding zero = refl
  contents-holding (suc n) = refl

  pushed-view : (v : ℤ) (n : ℕ) → n < length stack → view (set stack n v) (suc n) ≡ v ∷ view stack n
  pushed-view v n h = ground (arith, get_or-set_self stack n v (pos 0), view-set stack n n v)

  cells-holding : (n : ℕ) → IsValid (holding n) → length stack ≡ 257
  cells-holding zero v = v.cells
  cells-holding (suc n) v = v.cells

  pushed-IsValid :
      (v : ℤ) (n : ℕ)
      → n < 256
      → IsChar v
      → IsValid (holding n)
      → IsValid (record { stack = set stack n v; stackpointer = pos n })
  pushed-IsValid v n h c i = record {
    cells = omega (arith, length-set stack n v, cells-holding n i);
    low = omega arith;
    high = omega arith;
    chars =
        subst (All IsChar) (sym (pushed-view v n (omega (arith, cells-holding n i))))
          (c, rw (contents-holding n) at i.chars);
  }

signed_char-IsChar : (b : ℕ) → b < 256 → IsChar (signed_char b)
signed_char-IsChar b h = ground arith

module _ (stack : List ℤ) where
  write-Served :
      (b n : ℕ)
      → n ≤ 256
      → b < 256
      → IsValid (holding stack n)
      → Served (write b) (holding stack n) (hw1_write b (holding stack n))
  unfolding hw1_write
  write-Served b n hn hb v = elim (dec_lt n 256) [
    | yes h ↦ record {
      reply = rw (push_room, contents-holding, answer_room) refl;
      left =
          rw (push_room, contents-holding, answer_room)
            (pushed-view stack (signed_char b) n (omega (arith, cells-holding stack n v)));
      valid = rw (push_room) (pushed-IsValid stack (signed_char b) n h (signed_char-IsChar b hb) v);
    }
    | no h ↦
        let e : n ≡ 256 = omega arith in
        record {
          reply = rw (push_full stack _ n e, contents-holding, answer_full stack b n e) refl;
          left = rw (push_full stack _ n e, contents-holding, answer_full stack b n e) refl;
          valid = rw (push_full stack _ n e) v;
        }
  ]

  ioctl-Served :
      (cmd n : ℕ)
      → IsValid (holding stack n)
      → Served (ioctl cmd) (holding stack n) (hw1_ioctl cmd (holding stack n))
  unfolding hw1_ioctl modify_stack answer
  ioctl-Served cmd zero v = record {
    reply = ground arith;
    left = ground arith;
    valid = ground arith;
  }
  ioctl-Served cmd (suc n) v = record {
    reply = ground arith;
    left = ground arith;
    valid = ground arith;
  }

-- A byte is what a client can hand to `write`.
abbrev pub IsRequest : Request → Type 0
IsRequest read = Unit
IsRequest (write b) = b < 256
IsRequest (ioctl cmd) = Unit

serve-holding :
    (stack : List ℤ) (r : Request) (n : ℕ)
    → n ≤ 256
    → IsRequest r
    → IsValid (holding stack n)
    → Served r (holding stack n) (serve r (holding stack n))
unfolding serve
serve-holding stack read n hn hr v = read-Served stack n v
serve-holding stack (write b) n hn hr v = write-Served stack b n hn hr v
serve-holding stack (ioctl cmd) n hn hr v = ioctl-Served stack cmd n v

-- A valid driver is one that holds `count d` values.
holding_of_valid : (d : Driver) → IsValid d → holding d.stack (count d) ≡ d
holding_of_valid d v = go d.stackpointer refl (v.low)
  where
    go : (z : ℤ) → d.stackpointer ≡ z → neg_part d.stackpointer ≤ 1 → holding d.stack (count d) ≡ d
    go (pos n) e h = ground arith
    go (negsuc zero) e h = ground arith
    go (negsuc (suc n)) e h = absurd (ground arith)

count-le : (z : ℤ) → pos_part z ≤ 255 → pos_part (suc_ℤ z) ≤ 256
count-le (pos n) h = omega arith
count-le (negsuc zero) h = omega arith
count-le (negsuc (suc n)) h = omega arith

-- In a valid driver a request answers as the bounded stack of its contents does, leaves those
-- contents as the stack then stands, and leaves the driver valid.
pub serve_refines :
    (r : Request) (d : Driver)
    → IsRequest r
    → IsValid d
    → ((serve r d).0 ≡ some (answer r (contents d)).0)
      × (contents (serve r d).1 ≡ (answer r (contents d)).1)
      × IsValid (serve r d).1
serve_refines r d hr v =
    let e = holding_of_valid d v in
    let s =
      subst (λ x. Served r x (serve r x)) e
        (serve-holding d.stack r (count d) (count-le d.stackpointer v.high) hr
          (subst IsValid (sym e) v)) in
    (s.reply, s.left, s.valid)

-- No sequence of requests tells a valid driver from the bounded stack of its contents.
pub run_refines :
    (rs : List Request) (d : Driver)
    → All IsRequest rs
    → IsValid d
    → run d rs ≡ answers (contents d) rs
unfolding run answers
run_refines [] d hr v = refl
run_refines (r ∷ rs) d hr v =
    let s = serve_refines r d hr.0 v in rw (run_refines rs (serve r d).1 hr.1 s.2, s.1, s.0)

-- A read returns the value on top.
read_top :
    (d : Driver) (x : ℤ) (s : List ℤ) → IsValid d → contents d ≡ x ∷ s → (serve read d).0 ≡ some x
unfolding answer
read_top d x s v e = (serve_refines read d tt v).0 ∙ ap (λ t. some (answer read t).0) e

read_initial : (serve read initial).0 ≡ some (negsuc 0)
unfolding serve hw1_read pop modify_stack pop_branch
read_initial = refl

write_contents :
    (b : ℕ) (d : Driver)
    → b < 256
    → IsValid d
    → count d < 256
    → contents (serve (write b) d).1 ≡ signed_char b ∷ contents d
write_contents b d hb v h =
    (serve_refines (write b) d hb v).1 ∙ ap (λ t. t.1) (answer_room d.stack b (count d) h)

-- A client that writes the byte 255 to a valid stack with room reads -1 back, which is also what
-- a read of the freshly loaded driver, whose stack is empty, returns.
read_ambiguous :
    (d : Driver)
    → IsValid d
    → count d < 256
    → (serve read (serve (write 255) d).1).0 ≡ (serve read initial).0
read_ambiguous d v h =
    let w = serve_refines (write 255) d (omega arith) v in
    read_top (serve (write 255) d).1 (negsuc 0) (contents d) w.2
      (write_contents 255 d (omega arith) v h)
    ∙ sym read_initial
