-- ===== src/Bbfs/Policy.antt =====
-- `loadPolicyFromFile` of project4/bbfs.c. `config` is what `fopen` and `fscanf` give: nothing if the
-- file cannot be opened, else the three integers, each -1 where the scan stopped before it.
use ee.Base.{ℕ, Bool, true, false, ◌&&◌, Option, none, some, if◌then◌else◌}
use ee.Base.Int.{ℤ, pos, pos_part, ltb_ℤ, leb_ℤ, eqb_ℤ}

-- `encryptEnabled`, `forAddition`, `forShift`, `cachePolicy`
pub record Policy : Type 0 where
  pub encrypt_enabled : Bool
  pub for_addition : ℕ
  pub for_shift : ℕ
  pub cache_policy : ℕ

pub record Config : Type 0 where
  pub first : ℤ
  pub second : ℤ
  pub third : ℤ

abbrev pub load_encryption : Config → Policy → Policy
load_encryption c p =
    if eqb_ℤ c.first (pos 0) && eqb_ℤ c.second (pos 0)
    then record p { encrypt_enabled = false }
    else record p {
      encrypt_enabled = true;
      for_addition = pos_part c.first;
      for_shift = pos_part c.second;
    }

abbrev pub load_cache : Config → Policy → Policy
load_cache c p =
    if ltb_ℤ (pos 2) c.third
    then record p { cache_policy = 0 }
    else record p { cache_policy = pos_part c.third }

-- The integers are used only if none is negative.
abbrev pub load_config : Config → Policy → Policy
load_config c p =
    if leb_ℤ (pos 0) c.first && (leb_ℤ (pos 0) c.second && leb_ℤ (pos 0) c.third)
    then load_cache c (load_encryption c p)
    else p

unfoldable pub load_policy : Option Config → Policy → Policy
load_policy none p = p
load_policy (some c) p = load_config c p
