-- ===== src/Bbfs/Cipher.antt =====
-- The encryption of project4/bbfs.c: `applyBitshift`, the loops of `bb_write` and `bb_read` over the
-- bytes, and the `strncpy` that `bb_write` makes first.
pub mod Laws
use Prim.Native.Nat.{bit_or}
use ee.Base.{
  ℕ, zero, suc, ◌+◌, ◌-◌, ◌*◌, ◌/◌, ◌%◌, ◌^◌, Bool, true, false, List, [], ◌∷◌, map, ◌==◌,
  if◌then◌else◌, replicate, length,
}
use ee.Base.Mod.{u8}
use ee.Bbfs.Policy.{Policy}

-- `direction > 0`
pub data Direction : Type 0 where
  right left : Direction

-- An `unsigned char` shifted into itself; the result is cut to eight bits.
unfoldable pub apply_bitshift : ℕ → Direction → ℕ → ℕ → ℕ
apply_bitshift target right shift size =
    let modres = shift % size in u8 (bit_or (target / 2 ^ modres) (target * 2 ^ (8 - modres)))
apply_bitshift target left shift size =
    let modres = shift % size in u8 (bit_or (target * 2 ^ modres) (target / 2 ^ (8 - modres)))

-- `buf[i] + forAddition` and `buf[i] - forAddition`, stored in a `char`.
abbrev pub add_char : ℕ → ℕ → ℕ
add_char k b = u8 (b + k)

abbrev pub sub_char : ℕ → ℕ → ℕ
sub_char k b = u8 (b + 256 - u8 k)

-- The two loops of `bb_write`, and the two of `bb_read`.
unfoldable pub encrypt : Policy → List ℕ → List ℕ
encrypt p bytes =
    if p.encrypt_enabled
    then map (λ b. apply_bitshift b right p.for_shift 8) (map (add_char p.for_addition) bytes)
    else bytes

unfoldable pub decrypt : Policy → List ℕ → List ℕ
decrypt p bytes =
    if p.encrypt_enabled
    then map (sub_char p.for_addition) (map (λ b. apply_bitshift b left p.for_shift 8) bytes)
    else bytes

-- `strncpy(dst, src, n)` where `src` has `n` bytes: after the first zero only zeros are stored.
unfoldable pub strncpy : List ℕ → List ℕ
strncpy [] = []
strncpy (b ∷ bs) = if b == 0 then replicate (suc (length bs)) 0 else b ∷ strncpy bs
