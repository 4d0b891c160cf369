-- ===== src/Bbfs/Cipher/Laws.antt =====
-- Encryption and decryption in project4/bbfs.c together, and the copy before them.
use ee.Base.{
  false, dec_lt, ◌≤◌, if◌then◌else◌, ◌+◌, ℕ, zero, suc, ◌%◌, ◌<◌, ◌≡◌, ◌≢◌, refl, Bool, true, List,
  [], ◌∷◌, ◌++◌, map, arith, ◌==◌, ==_iff, All, replicate, length, Bool-cases, inl, inr,
}
use ee.Base.Mod.{sub-add-u8}
use ee.Bbfs.Policy.{Policy}
use ee.Bbfs.Cipher.{right, left, apply_bitshift, add_char, sub_char, encrypt, decrypt, strncpy}

abbrev pub IsByte : ℕ → Type 0
IsByte b = b < 256

-- A test made on `count` numbers from `first` on.
passes : (ℕ → Bool) → (first count : ℕ) → Bool
passes test first zero = true
passes test first (suc count) = if test first then passes test (suc first) count else false

passes_at :
    (test : ℕ → Bool) (first count m : ℕ)
    → passes test first count ≡ true
    → first ≤ m
    → m < first + count
    → test m ≡ true
unfolding passes
passes_at test first zero m done low high = absurd (omega arith)
passes_at test first (suc count) m done low high = elim (dec_lt first m) [
  | yes later ↦ passes_at test (suc first) count m (ground arith) (omega arith) (omega arith)
  | no now ↦ let e : m ≡ first = omega arith in rw e (ground arith)
]

abbrev back : ℕ → ℕ → Bool
back m b = apply_bitshift (apply_bitshift b right m 8) left m 8 == b

shift_table : passes (λ m. passes (back m) 0 256) 0 8 ≡ true
unfolding passes apply_bitshift
shift_table = refl

-- Only the remainder of the shift counts.
shift_mod :
    (b s : ℕ)
    → (apply_bitshift b right s 8 ≡ apply_bitshift b right (s % 8) 8)
      × (apply_bitshift b left s 8 ≡ apply_bitshift b left (s % 8) 8)
unfolding apply_bitshift
shift_mod b s = let e : s % 8 % 8 ≡ s % 8 = omega arith in (rw e refl, rw e refl)

-- Shifting left undoes shifting right, for every byte and every shift.
shift_back : (b s : ℕ) → IsByte b → apply_bitshift (apply_bitshift b right s 8) left s 8 ≡ b
shift_back b s h =
    rw ((shift_mod b s).0, (shift_mod (apply_bitshift b right (s % 8) 8) s).1)
      ((==_iff _ b).0 (
        passes_at (back (s % 8)) 0 256 b
          (passes_at (λ m. passes (back m) 0 256) 0 8 (s % 8) shift_table (omega arith)
            (omega arith))
          (omega arith) h))

-- Whatever the policy, values below 256 that `bb_write` encrypts are decrypted to the same values
-- by `bb_read`.
pub decrypt-encrypt :
    (p : Policy) (bytes : List ℕ) → All IsByte bytes → decrypt p (encrypt p bytes) ≡ bytes
unfolding decrypt encrypt
decrypt-encrypt p bytes h = elim (Bool-cases p.encrypt_enabled) [
  | inl e ↦ rw e (go bytes h)
  | inr e ↦ rw e refl
]
  where
    go :
        (l : List ℕ)
        → All IsByte l
        → map (sub_char p.for_addition) (
            map
              (λ b. apply_bitshift b left p.for_shift 8)
              (map (λ b. apply_bitshift b right p.for_shift 8) (map (add_char p.for_addition) l)))
          ≡ l
    go [] a = refl
    go (b ∷ l) (hb, hl) = rw (
      shift_back (add_char p.for_addition b) p.for_shift (omega arith),
      sub-add-u8 b p.for_addition hb,
      go l hl,
    )

-- The copy keeps data without a zero byte, and of other data only what stands before the first one.
pub strncpy_lem :
    (xs ys : List ℕ)
    → All (λ b. b ≢ 0) xs
    → (strncpy xs ≡ xs) × (strncpy (xs ++ 0 ∷ ys) ≡ xs ++ replicate (suc (length ys)) 0)
unfolding strncpy
strncpy_lem [] ys h = (refl, refl)
strncpy_lem (x ∷ xs) ys h = ground (arith, strncpy_lem xs ys h.1)
