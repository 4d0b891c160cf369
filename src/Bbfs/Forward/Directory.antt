-- ===== src/Bbfs/Forward/Directory.antt =====
-- `bb_readdir` of project4/bbfs.c. The stream behind `fi->fh`, with `readdir`, and the buffer of FUSE,
-- with `filler`, are parameters.
use mathlib.Core.List.{append-nil, append_assoc}
use ee.Base.{
  ℕ, zero, suc, ◌+◌, ◌≤◌, ◌≡◌, refl, Bool, true, false, Option, none, some, List, [], ◌∷◌, ◌++◌,
  leb, if◌then◌else◌, length, arith, ◌-◌, ◌<◌, dec_lt, sym, ◌∙◌,
}
use ee.Base.Int.{ℤ, pos, negsuc}
use ee.Bbfs.Forward.{neg}

-- `readdir` gives the name of the next entry, none for NULL; `errno` is its error number. `filler` is
-- true for a result other than 0.
pub record Listing : Type 1 where
  pub Stream : Type 0
  pub readdir : Stream → Option (List ℕ) × Stream
  pub errno : Stream → ℕ
  pub Buffer : Type 0
  pub filler : Buffer → List ℕ → Bool × Buffer

-- The number of the error ENOMEM.
abbrev pub enomem : ℕ
enomem = 12

module _ (listing : Listing) where
  open listing use {Stream, readdir, errno, Buffer, filler}

  -- The loop, for the entry `name`; fuel bounds the number of entries, none if there are more.
  unfoldable pub copy_entries :
      (fuel : ℕ) (name : List ℕ) → Stream → Buffer → Option (ℤ × Stream × Buffer)
  copy_entries zero name dp buf = none
  copy_entries (suc fuel) name dp buf =
      let buf' = (filler buf name).1 in
      elim (filler buf name).0 [
        | true ↦ some (neg enomem, dp, buf')
        | false ↦ elim (readdir dp).0 [
          | none ↦ some (pos 0, (readdir dp).1, buf')
          | some de ↦ copy_entries fuel de (readdir dp).1 buf'
        ]
      ]

  unfoldable pub bb_readdir : (fuel : ℕ) → Stream → Buffer → Option (ℤ × Stream × Buffer)
  bb_readdir fuel dp buf = elim (readdir dp).0 [
    | none ↦ some (neg (errno (readdir dp).1), (readdir dp).1, buf)
    | some name ↦ copy_entries fuel name (readdir dp).1 buf
  ]

  -- The entries that a stream still has.
  abbrev pub Lists : Stream → List (List ℕ) → Type 0
  Lists dp [] = (readdir dp).0 ≡ none
  Lists dp (name ∷ names) = ((readdir dp).0 ≡ some name) × Lists (readdir dp).1 names

  -- A buffer of limited size, in which an entry takes `cost`; one that does not fit is refused.
  pub record IsLimited (entries : Buffer → List (List ℕ)) (room : Buffer → ℕ) (cost : List ℕ → ℕ)
      : Type 0 where
    pub accepts :
        (b : Buffer) (name : List ℕ)
        → cost name ≤ room b
        → ((filler b name).0 ≡ false)
          × (entries (filler b name).1 ≡ entries b ++ name ∷ [])
          × (room (filler b name).1 ≡ room b - cost name)
    pub refuses :
        (b : Buffer) (name : List ℕ)
        → room b < cost name
        → ((filler b name).0 ≡ true) × (entries (filler b name).1 ≡ entries b)

-- The entries that fit one after the other into `room`.
abbrev pub fitting : (List ℕ → ℕ) → ℕ → List (List ℕ) → List (List ℕ)
fitting cost room [] = []
fitting cost room (name ∷ names) =
    let rest = fitting cost (room - cost name) names in
    if leb (cost name) room then name ∷ rest else []

abbrev pub total_cost : (List ℕ → ℕ) → List (List ℕ) → ℕ
total_cost cost [] = 0
total_cost cost (name ∷ names) = cost name + total_cost cost names

module _ (listing : Listing) {entries : listing.Buffer → List (List ℕ)} {room : listing.Buffer → ℕ}
    {cost : List ℕ → ℕ} (limited : IsLimited listing entries room cost) where
  open listing use {Stream, readdir, errno, Buffer, filler}

  -- A run that copies as much of `names` as fits, and reports if that is not all.
  abbrev pub Copied : List (List ℕ) → Buffer → Option (ℤ × Stream × Buffer) → Type 0
  Copied names buf o =
      (dp : Stream) × (buf' : Buffer) × (o
        ≡ some (if leb (total_cost cost names) (room buf) then pos 0 else neg enomem, dp, buf'))
      × (entries buf' ≡ entries buf ++ fitting cost (room buf) names)

  total_cost_leb : (a t r : ℕ) → a ≤ r → leb (a + t) r ≡ leb t (r - a)
  total_cost_leb a t r h = ground arith

  refused :
      (fuel : ℕ) (name : List ℕ) (names : List (List ℕ)) (dp : Stream) (buf : Buffer)
      → room buf < cost name
      → Copied (name ∷ names) buf (copy_entries listing (suc fuel) name dp buf)
  unfolding copy_entries
  refused fuel name names dp buf lt = (
    dp,
    (filler buf name).1,
    rw (r.0, too_much, copy_entries) refl,
    rw (no_room, r.1) (sym (append-nil (entries buf))),
  )
    where
      r : ((filler buf name).0 ≡ true) × (entries (filler buf name).1 ≡ entries buf)
      r = limited.refuses buf name lt

      too_much : leb (cost name + total_cost cost names) (room buf) ≡ false
      too_much = ground arith

      no_room : leb (cost name) (room buf) ≡ false
      no_room = ground arith

  fits : (name : List ℕ) (buf : Buffer) → cost name ≤ room buf → leb (cost name) (room buf) ≡ true
  fits name buf h = ground arith

  last_accepted :
      (fuel : ℕ) (name : List ℕ) (dp : Stream) (buf : Buffer)
      → cost name ≤ room buf
      → (readdir dp).0 ≡ none
      → Copied (name ∷ []) buf (copy_entries listing (suc fuel) name dp buf)
  unfolding copy_entries
  last_accepted fuel name dp buf h l = (
    (readdir dp).1,
    (filler buf name).1,
    rw ((limited.accepts buf name h).0, l, all_fit, copy_entries) refl,
    rw (fits name buf h) (limited.accepts buf name h).1,
  )
    where
      all_fit : leb (cost name + 0) (room buf) ≡ true
      all_fit = ground arith

  more_accepted :
      (fuel : ℕ) (name de : List ℕ) (names : List (List ℕ)) (dp : Stream) (buf : Buffer)
      → cost name ≤ room buf
      → (readdir dp).0 ≡ some de
      → Copied
          (de ∷ names)
          (filler buf name).1
          (copy_entries listing fuel de (readdir dp).1 (filler buf name).1)
      → Copied (name ∷ de ∷ names) buf (copy_entries listing (suc fuel) name dp buf)
  unfolding copy_entries
  more_accepted fuel name de names dp buf h l (dp', buf', e, f) = (
    dp',
    buf',
    rw
        (
          acc.0,
          l,
          total_cost_leb (cost name) (total_cost cost (de ∷ names)) (room buf) h,
          sym acc.2,
          copy_entries,
        )
        e,
    rw (fits name buf h) (f ∙ rw (acc.1, acc.2) (append_assoc (entries buf) (name ∷ []) _)),
  )
    where
      acc :
          ((filler buf name).0 ≡ false)
          × (entries (filler buf name).1 ≡ entries buf ++ name ∷ [])
          × (room (filler buf name).1 ≡ room buf - cost name)
      acc = limited.accepts buf name h

  copy_entries_lem :
      (fuel : ℕ) (name : List ℕ) (names : List (List ℕ)) (dp : Stream) (buf : Buffer)
      → Lists listing dp names
      → length names < fuel
      → Copied (name ∷ names) buf (copy_entries listing fuel name dp buf)
  copy_entries_lem zero name names dp buf l h = absurd (omega arith)
  copy_entries_lem (suc fuel) name [] dp buf l h = elim (dec_lt (room buf) (cost name)) [
    | yes lt ↦ refused fuel name [] dp buf lt
    | no ge ↦ last_accepted fuel name dp buf (omega arith) l
  ]
  copy_entries_lem (suc fuel) name (de ∷ names) dp buf l h =
      let rest =
        copy_entries_lem fuel de names (readdir dp).1 (filler buf name).1 l.1 (omega arith) in
      elim (dec_lt (room buf) (cost name)) [
        | yes lt ↦ refused fuel name (de ∷ names) dp buf lt
        | no ge ↦ more_accepted fuel name de names dp buf (omega arith) l.0 rest
      ]

-- If the stream has the entries `name ∷ names`, the fuel is more than the length of `names`, and the
-- filler accepts an entry exactly if it fits into the room that is left, then `bb_readdir` returns:
-- with all entries added in their order and 0 if they fit together, and otherwise with those entries
-- that fit before the first one that does not, and -ENOMEM.
pub bb_readdir_copies :
    (listing : Listing) {entries : listing.Buffer → List (List ℕ)} {room : listing.Buffer → ℕ}
    {cost : List ℕ → ℕ} (limited : IsLimited listing entries room cost) (fuel : ℕ) (name : List ℕ)
    (names : List (List ℕ)) (dp : listing.Stream) (buf : listing.Buffer)
    → Lists listing dp (name ∷ names)
    → length names < fuel
    → (dp' : listing.Stream) × (buf' : listing.Buffer) × (bb_readdir listing fuel dp buf
        ≡ some (
          if leb (total_cost cost (name ∷ names)) (room buf) then pos 0 else negsuc 11,
          dp',
          buf',
        ))
      × (entries buf' ≡ entries buf ++ fitting cost (room buf) (name ∷ names))
unfolding bb_readdir
bb_readdir_copies listing limited fuel name names dp buf l h =
    let (dp', buf', e, f) =
      copy_entries_lem listing limited fuel name names (listing.readdir dp).1 buf l.1 h in
    (dp', buf', rw (l.0, bb_readdir) e, f)
