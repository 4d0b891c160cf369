-- ===== src/StackDriver/Tests.antt =====
-- The device of hw1/hw1_driver.c on concrete requests.
use ee.Base.{◌≡◌, refl, some, List, [], ◌∷◌, arith}
use ee.Base.Int.{ℤ, pos, negsuc}
use ee.StackDriver.{
  initial, Request, read, write, ioctl, serve, run, hw1_read, hw1_write, hw1_ioctl, push, pop,
  modify_stack, push_branch, pop_branch,
}
use ee.StackDriver.Spec.{answers}
use ee.StackDriver.Valid.{IsValid}
use ee.StackDriver.Refine.{run_refines}
use ee.StackDriver.Clients.{
  pushed, stack_empty, popped, make_clean, Turn, provider, consumer, cleaner, turns,
}
use ee.StackDriver.Clients.Agree.{turns_agree}

abbrev script : List Request
script = write 7 ∷ write 200 ∷ read ∷ ioctl 0 ∷ read ∷ []

-- 200 is -56 as a signed byte.
run-script :
    run initial script
    ≡ some (pos 1) ∷ some (pos 2) ∷ some (negsuc 55) ∷ some (pos 0) ∷ some (negsuc 0) ∷ []
unfolding run serve hw1_read hw1_write hw1_ioctl push pop modify_stack push_branch pop_branch
run-script = refl

initial-IsValid : IsValid initial
initial-IsValid = omega arith

run_refines_example : run initial script ≡ answers [] script
run_refines_example = run_refines script initial (omega arith) initial-IsValid

-- A result from -4095 to -1 is an error, for which a call returns -1.
abbrev error_is_minus_one : ℤ → ℤ
error_is_minus_one (pos n) = pos n
error_is_minus_one (negsuc n) = negsuc 0

abbrev rounds : List Turn
rounds =
    consumer ∷ provider 0 100 ∷ provider 7 60003 ∷ consumer ∷ cleaner 0 ∷ cleaner 1 ∷ consumer ∷ []

turns_agree_example :
    turns error_is_minus_one rounds initial
    ≡ (some stack_empty ∷ [])
      ∷ (some (pushed 100 (pos 1)) ∷ [])
      ∷ (some (pushed 59 (pos 2)) ∷ [])
      ∷ (some (popped (pos 59)) ∷ [])
      ∷ []
      ∷ (some make_clean ∷ [])
      ∷ (some stack_empty ∷ [])
      ∷ []
turns_agree_example = turns_agree error_is_minus_one (λ n. refl) refl rounds
