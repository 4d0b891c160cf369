-- ===== src/StackDriver/Clients/Agree.antt =====
-- What the programs of hw1 print when they share the device, against a stack of numbers.
use mathlib.Core.Path.{subst}
use ee.Base.{
  ℕ, ◌+◌, ◌%◌, ◌<◌, ◌≤◌, dec_lt, ◌≡◌, refl, sym, ap, ◌∙◌, Option, some, List, [], ◌∷◌, ◌==◌,
  if◌then◌else◌, Bool, true, false, length, map, All, arith, length-map,
}
use ee.Base.Int.{ℤ, pos, negsuc}
use ee.StackDriver.{Driver, Request, read, write, ioctl, serve, refused, initial}
use ee.StackDriver.Spec.{answer, capacity}
use ee.StackDriver.Valid.{IsValid, contents}
use ee.StackDriver.Refine.{IsRequest, serve_refines}
use ee.StackDriver.Clients.{
  Message, stack_full, pushed, stack_empty, popped, make_clean, Turn, provider, consumer, cleaner,
  chosen, provider_message, consumer_message, turn, turns, provide, consume, clean,
}

-- The programs with a stack of at most 256 numbers.
abbrev pub stack_turn : Turn → List ℕ → List Message × List ℕ
stack_turn (provider rand time) s =
    let p = chosen rand time in
    if length s == capacity
    then (stack_full ∷ [], s)
    else (pushed p (pos (length s + 1)) ∷ [], p ∷ s)
stack_turn consumer [] = (stack_empty ∷ [], [])
stack_turn consumer (x ∷ s) = (popped (pos x) ∷ [], s)
stack_turn (cleaner rand) s = if 1 + rand % 5 == 2 then (make_clean ∷ [], []) else ([], s)

abbrev pub stack_turns : List Turn → List ℕ → List (List Message)
stack_turns [] s = []
stack_turns (t ∷ ts) s = (stack_turn t s).0 ∷ stack_turns ts (stack_turn t s).1

-- A device that holds such numbers.
record Holds (d : Driver) (s : List ℕ) : Type 0 where
  valid : IsValid d
  values : contents d ≡ map pos s
  small : All (λ p. p < 127) s
  bounded : length s ≤ 256

-- A request to such a device, as the stack answers it.
record Answered (r : Request) (d : Driver) (s : List ℕ) : Type 0 where
  reply : (serve r d).0 ≡ some (answer r (map pos s)).0
  left : contents (serve r d).1 ≡ (answer r (map pos s)).1
  valid : IsValid (serve r d).1

answered : (r : Request) (d : Driver) (s : List ℕ) → IsRequest r → Holds d s → Answered r d s
answered r d s hr h =
    let (reply, left, valid) = serve_refines r d hr h.valid in
    record {
      reply = reply ∙ ap (λ l. some (answer r l).0) h.values;
      left = left ∙ ap (λ l. (answer r l).1) h.values;
      valid = valid;
    }

answer_full :
    (p : ℕ) (s : List ℕ) → length s ≡ 256 → answer (write p) (map pos s) ≡ (refused, map pos s)
unfolding answer
answer_full p s h = ground (arith, length-map s pos)

answer_room :
    (p : ℕ) (s : List ℕ)
    → length s < 256
    → p < 127
    → answer (write p) (map pos s) ≡ (pos (length s + 1), map pos (p ∷ s))
unfolding answer
answer_room p s h lt = ground (arith, length-map s pos)

chosen_lt : (rand time : ℕ) → chosen rand time < 127
chosen_lt rand time = ground arith

not_refused : (p n : ℕ) → n < 256 → provider_message p (pos (n + 1)) ≡ pushed p (pos (n + 1))
not_refused p n h = ground arith

shown_popped : (x : ℕ) → consumer_message (pos x) ≡ popped (pos x)
shown_popped x = ground arith

initial-Holds : Holds initial []
initial-Holds = record { valid = omega arith; values = refl; small = tt; bounded = omega arith }

module _ (libc : ℤ → ℤ) (passes : (n : ℕ) → libc (pos n) ≡ pos n)
    (fails : libc (negsuc 0) ≡ negsuc 0) where
  Agrees : Turn → Driver → List ℕ → Type 0
  Agrees t d s =
      ((turn libc t d).0 ≡ map some (stack_turn t s).0) × Holds (turn libc t d).1 (stack_turn t s).1

  agree :
      (t : Turn) (d : Driver) (s : List ℕ) {x : List Message × List ℕ}
      → stack_turn t s ≡ x
      → (turn libc t d).0 ≡ map some x.0
      → Holds (turn libc t d).1 x.1
      → Agrees t d s
  unfolding Agrees
  agree t d s e m h =
      subst (λ x. ((turn libc t d).0 ≡ map some x.0) × Holds (turn libc t d).1 x.1) (sym e) (m, h)

  push_full :
      (rand time : ℕ) (d : Driver) (s : List ℕ)
      → Holds d s
      → length s ≡ 256
      → Agrees (provider rand time) d s
  unfolding turn provide
  push_full rand time d s h e =
      let p = chosen rand time in
      let a = answered (write p) d s (omega (arith, chosen_lt rand time)) h in
      agree (provider rand time) d s {x = (stack_full ∷ [], s)} (rw e refl)
        (rw (a.reply, answer_full p s e, passes) refl)
        (record {
          valid = a.valid;
          values = a.left ∙ rw (answer_full p s e) refl;
          small = h.small;
          bounded = h.bounded;
        })

  push_room :
      (rand time : ℕ) (d : Driver) (s : List ℕ)
      → Holds d s
      → length s < 256
      → Agrees (provider rand time) d s
  unfolding turn provide
  push_room rand time d s h lt =
      let p = chosen rand time in
      let a = answered (write p) d s (omega (arith, chosen_lt rand time)) h in
      let e : (length s == capacity) ≡ false = ground arith in
      agree (provider rand time) d s {x = (pushed p (pos (length s + 1)) ∷ [], p ∷ s)} (rw e refl)
        (rw (a.reply, answer_room p s lt (chosen_lt rand time), passes, not_refused p (length s) lt)
          refl)
        (record {
          valid = a.valid;
          values = a.left ∙ rw (answer_room p s lt (chosen_lt rand time)) refl;
          small = (chosen_lt rand time, h.small);
          bounded = omega arith;
        })

  popping : (d : Driver) (s : List ℕ) → Holds d s → Agrees consumer d s
  unfolding turn consume answer
  popping d [] h =
      let a = answered read d [] tt h in
      agree consumer d [] {x = (stack_empty ∷ [], [])} refl (rw (a.reply, fails) refl)
        (record { valid = a.valid; values = a.left; small = tt; bounded = omega arith })
  popping d (x ∷ s) h =
      let a = answered read d (x ∷ s) tt h in
      agree consumer d (x ∷ s) {x = (popped (pos x) ∷ [], s)} refl
        (rw (a.reply, passes, shown_popped x) refl)
        (record {
          valid = a.valid;
          values = a.left;
          small = h.small.1;
          bounded = omega (arith, h.bounded);
        })

  cleaning : (rand : ℕ) (d : Driver) (s : List ℕ) → Holds d s → Agrees (cleaner rand) d s
  unfolding turn clean answer Agrees
  cleaning rand d s h = by_chance (1 + rand % 5 == 2)
    where
      a : Answered (ioctl 0) d s
      a = answered (ioctl 0) d s tt h

      device : Bool → List (Option Message) × Driver
      device b = if b then (some make_clean ∷ [], (serve (ioctl 0) d).1) else ([], d)

      stack : Bool → List Message × List ℕ
      stack b = if b then (make_clean ∷ [], []) else ([], s)

      by_chance :
          (b : Bool) → ((device b).0 ≡ map some (stack b).0) × Holds (device b).1 (stack b).1
      by_chance true =
          (refl, record { valid = a.valid; values = a.left; small = tt; bounded = omega arith })
      by_chance false = (refl, h)

  turn_lem : (t : Turn) (d : Driver) (s : List ℕ) → Holds d s → Agrees t d s
  turn_lem (provider rand time) d s h = elim (dec_lt (length s) 256) [
    | yes lt ↦ push_room rand time d s h lt
    | no ge ↦ push_full rand time d s h (omega (arith, h.bounded))
  ]
  turn_lem consumer d s h = popping d s h
  turn_lem (cleaner rand) d s h = cleaning rand d s h

  turns_lem :
      (ts : List Turn) (d : Driver) (s : List ℕ)
      → Holds d s
      → turns libc ts d ≡ map (map some) (stack_turns ts s)
  unfolding turns Agrees
  turns_lem [] d s h = refl
  turns_lem (t ∷ ts) d s h =
      let (m, h') = turn_lem t d s h in
      rw (m, turns_lem ts (turn libc t d).1 (stack_turn t s).1 h') refl

-- In whatever order the provider, the consumer and the cleaner take turns on the device as it is
-- loaded, if the library passes on results that are not negative and -1, they print what they would
-- print with a stack of at most 256 numbers: the consumer finds it empty exactly when it is, and else
-- shows the number that was pushed last, and the provider shows the size, or that the stack is full.
pub turns_agree :
    (libc : ℤ → ℤ)
    → ((n : ℕ) → libc (pos n) ≡ pos n)
    → libc (negsuc 0) ≡ negsuc 0
    → (ts : List Turn) → turns libc ts initial ≡ map (map some) (stack_turns ts [])
turns_agree libc passes fails ts = turns_lem libc passes fails ts initial [] initial-Holds
