-- ===== src/Procmon/Selection.antt =====
-- What a text written to /proc/procmon_sorting selects, in project2/procmon.c.
use mathlib.Core.List.{append-nil, append_assoc}
use ee.Base.{
  length-take, ℕ, zero, suc, ◌+◌, ◌≤◌, ◌<◌, ◌≡◌, ◌≢◌, refl, sym, ap, ◌∙◌, Bool, true, false, some,
  List, [], ◌∷◌, ◌++◌, arith, length, get_or, take, Bool-cases, inl, inr, All, ◌==◌, length-append,
  All-append, ◌⊎◌,
}
use ee.Base.Int.{pos}
use ee.Procmon.{
  Criterion, pid, virt, rss, io, word, same_text, select, text, trim, selection_write, buf_size,
}

same_text_eq : (a b : List ℕ) → same_text a b ≡ true → a ≡ b
same_text_eq [] [] h = refl
same_text_eq [] (y ∷ b) h = cc
same_text_eq (x ∷ a) [] h = cc
same_text_eq (x ∷ a) (y ∷ b) h = ground (arith, same_text_eq a b)

same_text_refl : (a : List ℕ) → same_text a a ≡ true
same_text_refl [] = refl
same_text_refl (x ∷ a) = ground (arith, same_text_refl a)

-- A text selects a criterion exactly if it is the criterion's word.
select-word : (c old : Criterion) → select (word c) old ≡ c
unfolding select
select-word pid old = refl
select-word virt old = refl
select-word rss old = refl
select-word io old = refl

select-changed : (t : List ℕ) (old : Criterion) → select t old ≢ old → t ≡ word (select t old)
unfolding select
select-changed t old h = elim (Bool-cases (same_text t (word pid))) [
  | inl e ↦ rw e (same_text_eq t (word pid) e)
  | inr e ↦ elim (Bool-cases (same_text t (word virt))) [
    | inl f ↦ rw (e, f) (same_text_eq t (word virt) f)
    | inr f ↦ elim (Bool-cases (same_text t (word rss))) [
      | inl g ↦ rw (e, f, g) (same_text_eq t (word rss) g)
      | inr g ↦ elim (Bool-cases (same_text t (word io))) [
        | inl k ↦ rw (e, f, g, k) (same_text_eq t (word io) k)
        | inr k ↦ absurd (h (rw (e, f, g, k) refl))
      ]
    ]
  ]
]

criterion_dec : Discrete Criterion
criterion_dec = hlevel

module _ (isspace : ℕ → Bool) where
  abbrev pub IsSpaces : List ℕ → Type 0
  IsSpaces = All (λ b. isspace b ≡ true)

  get_or-append : (xs ys : List ℕ) (k : ℕ) → get_or (xs ++ ys) (length xs + k) 0 ≡ get_or ys k 0
  get_or-append [] ys k = let e : 0 + k ≡ k = omega arith in rw e refl
  get_or-append (x ∷ xs) ys k =
      let e : suc (length xs) + k ≡ suc (length xs + k) = omega arith in
      rw e (get_or-append xs ys k)

  take-append : (xs ys : List ℕ) (k : ℕ) → take (length xs + k) (xs ++ ys) ≡ xs ++ take k ys
  take-append [] ys k = let e : 0 + k ≡ k = omega arith in rw e refl
  take-append (x ∷ xs) ys k =
      let e : suc (length xs) + k ≡ suc (length xs + k) = omega arith in
      rw e (ap (◌∷◌ x) (take-append xs ys k))

  IsSpaces-get_or :
      (ws : List ℕ) (k : ℕ) → IsSpaces ws → k < length ws → isspace (get_or ws k 0) ≡ true
  IsSpaces-get_or [] k h lt = absurd (omega arith)
  IsSpaces-get_or (w ∷ ws) zero h lt = h.0
  IsSpaces-get_or (w ∷ ws) (suc k) h lt = IsSpaces-get_or ws k h.1 (omega arith)

  IsSpaces-take : (k : ℕ) (ws : List ℕ) → IsSpaces ws → IsSpaces (take k ws)
  IsSpaces-take zero ws h = tt
  IsSpaces-take (suc k) [] h = tt
  IsSpaces-take (suc k) (w ∷ ws) h = (h.0, IsSpaces-take k ws h.1)

  -- The loop stops at once at a text whose last byte is no space.
  trim_stop : (i : ℕ) (t : List ℕ) → isspace (get_or t i 0) ≡ false → trim isspace (suc i) t ≡ t
  unfolding trim
  trim_stop i t h = rw h refl

  -- It takes the spaces off from the end.
  trim-append :
      (xs : List ℕ) (k : ℕ) (ws : List ℕ)
      → IsSpaces ws
      → length ws ≡ k
      → trim isspace (length xs + k) (xs ++ ws) ≡ trim isspace (length xs) xs
  unfolding trim
  trim-append xs zero [] h e =
      let e' : length xs + 0 ≡ length xs = omega arith in rw (append-nil, e') refl
  trim-append xs zero (w ∷ ws) h e = absurd (omega arith)
  trim-append xs (suc k) ws h e =
      let q : length xs + suc k ≡ suc (length xs + k) = omega arith in
      let s : isspace (get_or (xs ++ ws) (length xs + k) 0) ≡ true =
        rw (get_or-append xs ws k) (IsSpaces-get_or ws k h (omega (arith, e))) in
      rw (q, trim, s, take-append xs ws k)
        (trim-append xs k (take k ws) (IsSpaces-take k ws h) (omega (arith, length-take k ws, e)))

  take-snoc : (i : ℕ) (t : List ℕ) → length t ≡ suc i → t ≡ take i t ++ get_or t i 0 ∷ []
  take-snoc i [] e = absurd (omega arith)
  take-snoc zero (x ∷ []) e = refl
  take-snoc zero (x ∷ y ∷ t) e = absurd (omega arith)
  take-snoc (suc i) (x ∷ t) e = ap (◌∷◌ x) (take-snoc i t (omega arith))

  IsSpaces-append : (ws vs : List ℕ) → IsSpaces ws → IsSpaces vs → IsSpaces (ws ++ vs)
  IsSpaces-append ws vs h k = All-append (λ b. isspace b ≡ true) ws vs h k

  -- What the loop takes off is spaces.
  trim-IsSpaces :
      (i : ℕ) (t : List ℕ)
      → length t ≡ i
      → (ws : List ℕ) × IsSpaces ws × (t ≡ trim isspace i t ++ ws)
  unfolding trim
  trim-IsSpaces zero t e = ([], tt, sym (append-nil t))
  trim-IsSpaces (suc i) t e = elim (Bool-cases (isspace (get_or t i 0))) [
    | inr h ↦ ([], tt, rw (trim, h) (sym (append-nil t)))
    | inl h ↦
        let (ws, sp, q) = trim-IsSpaces i (take i t) (omega (arith, length-take i t, e)) in
        (
          ws ++ get_or t i 0 ∷ [],
          IsSpaces-append ws (get_or t i 0 ∷ []) sp (h, tt),
          rw (trim, h)
              (take-snoc i t e
                ∙ ap (λ u. u ++ get_or t i 0 ∷ []) q
                ∙ append_assoc (trim isspace i (take i t)) ws (get_or t i 0 ∷ [])),
        )
  ]

  -- A text without a zero byte is what the buffer holds as a string.
  text-All : (l : List ℕ) → All (λ b. b ≢ 0) l → text l ≡ l
  text-All [] h = refl
  text-All (b ∷ l) h = ground (arith, text-All l h.1)

  take_all : (n : ℕ) (l : List ℕ) → length l ≤ n → take n l ≡ l
  take_all zero [] h = refl
  take_all zero (x ∷ l) h = absurd (omega arith)
  take_all (suc n) [] h = refl
  take_all (suc n) (x ∷ l) h = ap (◌∷◌ x) (take_all n l (omega arith))

  selection_write_text :
      (l : List ℕ) (old : Criterion)
      → All (λ b. b ≢ 0) l
      → length l < buf_size
      → selection_write isspace true l old
        ≡ some (pos (length l), select (trim isspace (length l) l) old)
  unfolding selection_write
  selection_write_text l old h lt =
      let e : (length l == buf_size) ≡ false = ground arith in
      rw (selection_write, take_all buf_size l (omega arith), text-All l h, e) refl

  abbrev pub LettersAreNoSpaces : Type 0
  LettersAreNoSpaces = (b : ℕ) → 97 ≤ b → b ≤ 122 → isspace b ≡ false

  trim-word :
      LettersAreNoSpaces → (c : Criterion) → trim isspace (length (word c)) (word c) ≡ word c
  trim-word h pid = trim_stop 2 (word pid) (h 100 (omega arith) (omega arith))
  trim-word h virt = trim_stop 3 (word virt) (h 116 (omega arith) (omega arith))
  trim-word h rss = trim_stop 2 (word rss) (h 115 (omega arith) (omega arith))
  trim-word h io = trim_stop 1 (word io) (h 111 (omega arith) (omega arith))

  word-text : (c : Criterion) → All (λ b. b ≢ 0) (word c)
  word-text pid = ground arith
  word-text virt = ground arith
  word-text rss = ground arith
  word-text io = ground arith

  -- A copied text of fewer than 512 bytes that is the word of a criterion and any spaces selects it,
  -- whatever was selected before, and all of it counts as written.
  pub selection_write-word :
      (c old : Criterion) (ws : List ℕ)
      → LettersAreNoSpaces
      → IsSpaces ws
      → All (λ b. b ≢ 0) ws
      → length (word c ++ ws) < buf_size
      → selection_write isspace true (word c ++ ws) old ≡ some (pos (length (word c ++ ws)), c)
  selection_write-word c old ws letters sp nz lt =
      selection_write_text (word c ++ ws) old (All-append (λ b. b ≢ 0) (word c) ws (word-text c) nz)
        lt
      ∙ rw
          (
            length-append (word c) ws,
            trim-append (word c) (length ws) ws sp refl,
            trim-word letters c,
            select-word c old,
          )
          refl

  -- A copied text of fewer than 512 bytes, none of them zero, is accepted whole. It leaves the
  -- criterion alone, or it is the word of the new criterion and spaces.
  selection_write-only :
      (l : List ℕ) (old : Criterion)
      → All (λ b. b ≢ 0) l
      → length l < buf_size
      → (c : Criterion) × (selection_write isspace true l old ≡ some (pos (length l), c))
        × ((c ≡ old) ⊎ ((ws : List ℕ) × IsSpaces ws × (l ≡ word c ++ ws)))
  selection_write-only l old h lt =
      let t = trim isspace (length l) l in
      let (ws, sp, e) = trim-IsSpaces (length l) l refl in
      (
        select t old,
        selection_write_text l old h lt,
        elim (criterion_dec (select t old) old) [
          | yes same ↦ inl same
          | no new ↦ inr (ws, sp, e ∙ ap (λ u. u ++ ws) (select-changed t old new))
        ],
      )
