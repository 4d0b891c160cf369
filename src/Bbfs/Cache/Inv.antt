-- ===== src/Bbfs/Cache/Inv.antt =====
-- The counters, the search and the eviction of the cache of project4/bbfs.c.
use mathlib.Core.List.{Perm}
use mathlib.Core.List.Perm
use mathlib.Core.List.{append-nil}
use ee.Base.{
  All, ℕ, zero, suc, ◌+◌, ◌%◌, ◌≤◌, ◌<◌, ◌≡◌, ◌≢◌, ◌↔◌, refl, Bool, true, false, ◌&&◌, ◌||◌, Option,
  none, some, List, [], ◌∷◌, ◌++◌, arith, leb, ◌==◌, if◌then◌else◌, length, Bool-cases, inl, inr,
  sym, ap, ◌∙◌,
}
use ee.Base.Perms.{length-perm}
use ee.Bbfs.Policy.{Policy, Config, load_policy}
use ee.Bbfs.Cache.{
  Files, FileBuffer, Cache, HitType, perfect_hit, partial_hit, partial_miss, perfect_miss, HitInfo,
  no_hit, note, scan, find, remove, list_move, settle_parts, settle, buffer_hit_check, take_out,
  take_last, evict, insert_front, add_file_buffer, flush_all, release_file_buffer, max_list_size,
}

pub record IsValid (c : Cache) : Type 0 where
  pub counted : c.buffer_count ≡ length c.buffers
  pub bounded : c.buffer_count ≤ max_list_size
  pub accesses : c.access_count ≡ c.hit_count + c.miss_count

remove-perm :
    (a : ℕ) (l : List FileBuffer) (b : FileBuffer) → find a l ≡ some b → Perm (b ∷ remove a l) l
remove-perm a [] b h = cc
remove-perm a (d ∷ l) b h = elim (Bool-cases (d.addr == a)) [
  | inl e ↦ let q : d ≡ b = ground arith in rw (e, q) (Perm.refl _)
  | inr e ↦
      rw e (Perm.trans (Perm.swap d b (remove a l)) (Perm.cons d (remove-perm a l b (rw e at h))))
]

list_move-perm : (a : ℕ) (l : List FileBuffer) → Perm (list_move a l) l
list_move-perm a l = go (find a l) refl
  where
    go : (o : Option FileBuffer) → find a l ≡ o → Perm (list_move a l) l
    go none e = rw (e, list_move) (Perm.refl l)
    go (some b) e = rw (e, list_move) (remove-perm a l b e)

abbrev Kept : Cache → HitInfo × Cache → Type 0
Kept c out =
    Perm out.1.buffers c.buffers
    × (out.1.access_count ≡ c.access_count)
    × (out.1.hit_count + out.1.miss_count ≡ c.hit_count + c.miss_count + 1)
    × (out.1.buffer_count ≡ c.buffer_count)

settle_parts-Kept : (h : HitInfo) (c : Cache) → Kept c (settle_parts h c)
unfolding settle_parts
settle_parts-Kept h c = elim (Bool-cases h.valid_first) [
  | inl a ↦ elim (Bool-cases h.valid_second) [
    | inl b ↦
        rw (a, b)
          (
            Perm.trans (list_move-perm h.firstpart _) (list_move-perm h.secondpart c.buffers),
            refl,
            omega arith,
            refl,
          )
    | inr b ↦ rw (a, b) (list_move-perm h.firstpart c.buffers, refl, omega arith, refl)
  ]
  | inr a ↦ elim (Bool-cases h.valid_second) [
    | inl b ↦ rw (a, b) (list_move-perm h.secondpart c.buffers, refl, omega arith, refl)
    | inr b ↦ rw (a, b) (Perm.refl _, refl, omega arith, refl)
  ]
]

settle-Kept : (h : HitInfo) (c : Cache) → Kept c (settle h c)
unfolding settle
settle-Kept h c = go h.type refl
  where
    go : (t : HitType) → h.type ≡ t → Kept c (settle h c)
    go perfect_hit e =
        rw (e, settle) (list_move-perm h.firstpart c.buffers, refl, omega arith, refl)
    go partial_hit e = rw (e, settle) (settle_parts-Kept h c)
    go partial_miss e = rw (e, settle) (settle_parts-Kept h c)
    go perfect_miss e = rw (e, settle) (settle_parts-Kept h c)

-- A search keeps the cache valid: it counts one access, as a hit or as a miss, and only moves chunks
-- within the list.
pub buffer_hit_check-IsValid :
    (offset size fd : ℕ) (c : Cache)
    → IsValid c
    → IsValid (buffer_hit_check offset size fd c).1
      × Perm (buffer_hit_check offset size fd c).1.buffers c.buffers
      × ((buffer_hit_check offset size fd c).1.access_count ≡ c.access_count + 1)
unfolding buffer_hit_check
buffer_hit_check-IsValid offset size fd c v =
    let h = scan fd offset (offset + size) c.buffers no_hit in
    let (p, acc, sum, cnt) = settle-Kept h (record c { access_count = c.access_count + 1 }) in
    (
      record {
        counted = omega (arith, v.counted, length-perm p);
        bounded = omega (arith, v.bounded);
        accesses = omega (arith, v.accesses);
      },
      p,
      acc,
    )

-- A chunk of that file starts at that offset.
pub holds : ℕ → ℕ → List FileBuffer → Bool
holds fd offset [] = false
holds fd offset (b ∷ l) = (b.fd == fd && b.from == offset) || holds fd offset l

note-type : (fd from to : ℕ) (b : FileBuffer) (h : HitInfo) → (note fd from to b h).type ≡ h.type
unfolding note
note-type fd from to b h = ground arith

-- The loop of a search comes to a perfect hit exactly if a chunk of that file starts at the offset of
-- the request.
scan-perfect :
    (fd offset to : ℕ) (l : List FileBuffer) (h : HitInfo)
    → h.type ≢ perfect_hit
    → ((scan fd offset to l h).type ≡ perfect_hit) ↔ (holds fd offset l ≡ true)
unfolding scan holds
scan-perfect fd offset to [] h n = (λ e. absurd (n e), λ e. cc)
scan-perfect fd offset to (b ∷ l) h n = elim (Bool-cases (b.fd == fd && b.from == offset)) [
  | inl e ↦ rw e (λ q. refl, λ q. refl)
  | inr e ↦ rw e (
      scan-perfect fd offset to l (note fd offset to b h)
        (λ q. n (sym (note-type fd offset to b h) ∙ q)))
]

-- Making room takes one chunk away, if there is one.
take_out-length :
    (k : ℕ) (l : List FileBuffer) → k < length l → length (take_out (suc k) l).1 + 1 ≡ length l
take_out-length k [] h = absurd (omega arith)
take_out-length zero (b ∷ l) h = omega arith
take_out-length (suc k) (b ∷ l) h = omega (arith, take_out-length k l (omega arith))

take_last-length : (l : List FileBuffer) → 0 < length l → length (take_last l).1 + 1 ≡ length l
take_last-length [] h = absurd (omega arith)
take_last-length (b ∷ []) h = omega arith
take_last-length (b ∷ d ∷ l) h = omega (arith, take_last-length (d ∷ l) (omega arith))

take_last-append : (l : List FileBuffer) (b : FileBuffer) → take_last (l ++ b ∷ []) ≡ (some b, l)
take_last-append [] b = refl
take_last-append (d ∷ []) b = refl
take_last-append (d ∷ e ∷ l) b = cc (take_last-append (e ∷ l) b)

module _ (files : Files) where
  open files use {Disk, pwrite}

  shorter :
      (k : ℕ) (l : List FileBuffer) → k < length l → length (take_out (1 + k) l).1 + 1 ≡ length l
  shorter k l lt = let e : 1 + k ≡ suc k = omega arith in rw e (take_out-length k l lt)

  evict-length :
      (p : Policy) (rnd : ℕ) (c : Cache) (disk : Disk)
      → IsValid c
      → 0 < c.buffer_count
      → (length (evict files p rnd c disk).0.buffers + 1 ≡ length c.buffers)
        × ((evict files p rnd c disk).0.buffer_count + 1 ≡ c.buffer_count)
        × IsValid (evict files p rnd c disk).0
  unfolding evict
  evict-length p rnd c disk v h = (
    len,
    omega arith,
    record {
      counted = omega (arith, len, v.counted);
      bounded = omega (arith, v.bounded);
      accesses = v.accesses;
    },
  )
    where
      len : length (evict files p rnd c disk).0.buffers + 1 ≡ length c.buffers
      len = elim (Bool-cases (p.cache_policy == 1)) [
        | inl e ↦ rw e (shorter (rnd % c.buffer_count) c.buffers (omega (arith, v.counted)))
        | inr e ↦ rw e (take_last-length c.buffers (omega (arith, v.counted)))
      ]

  -- Adding a chunk keeps the cache valid, with at most 1280 chunks and counters that agree with
  -- them. A chunk of the file at the offset is then there, and the list is one longer, unless it
  -- had 1280 chunks already: then it has as many as before.
  pub add_file_buffer-IsValid :
      (config : Option Config) (rnd : ℕ) (bytes : List ℕ) (from to fd : ℕ) (p : Policy) (c : Cache)
      (disk : Disk)
      → IsValid c
      → IsValid (add_file_buffer files config rnd bytes from to fd (p, c, disk)).1
        × (holds fd from (add_file_buffer files config rnd bytes from to fd (p, c, disk)).1.buffers
            ≡ true)
        × (length (add_file_buffer files config rnd bytes from to fd (p, c, disk)).1.buffers ≡ (
            if leb max_list_size (length c.buffers)
            then length c.buffers
            else length c.buffers + 1))
  unfolding add_file_buffer insert_front holds
  add_file_buffer-IsValid config rnd bytes from to fd p c disk v =
      elim (Bool-cases (leb max_list_size c.buffer_count)) [
        | inl e ↦
            let (len, cnt, w) = evict-length (load_policy config p) rnd c disk v (ground arith) in
            let q : leb max_list_size (length c.buffers) ≡ true = ground (arith, v.counted) in
            rw (e, q)
              (
                record {
                  counted = omega (arith, w.counted);
                  bounded = omega (arith, cnt, v.bounded);
                  accesses = w.accesses;
                },
                ground arith,
                omega (arith, len),
              )
        | inr e ↦
            let q : leb max_list_size (length c.buffers) ≡ false = ground (arith, v.counted) in
            rw (e, q)
              (
                record {
                  counted = omega (arith, v.counted);
                  bounded = ground (arith, v.bounded);
                  accesses = v.accesses;
                },
                ground arith,
                omega arith,
              )
      ]

  -- With any policy but the random one the chunk that is evicted is the last of the list; it is
  -- written to its file if it is dirty, and else the disk is left alone.
  evict_lru :
      (p : Policy) (rnd : ℕ) (c : Cache) (disk : Disk) (l : List FileBuffer) (b : FileBuffer)
      → p.cache_policy ≢ 1
      → c.buffers ≡ l ++ b ∷ []
      → ((evict files p rnd c disk).0.buffers ≡ l)
        × ((evict files p rnd c disk).1
            ≡ (if b.dirty then (pwrite disk b.fd b.buf b.from).1 else disk))
  unfolding evict
  evict_lru p rnd c disk l b n e =
      let t : take_last c.buffers ≡ (some b, l) = ap take_last e ∙ take_last-append l b in
      let q : (p.cache_policy == 1) ≡ false = ground arith in rw (q, t) (refl, refl)

  flush_all_clean :
      (fh : ℕ) (l m : List FileBuffer) (disk : Disk)
      → All (λ (b : FileBuffer). b.dirty ≡ false) l
      → flush_all files fh (l ++ m) disk ≡ flush_all files fh m disk
  unfolding flush_all
  flush_all_clean fh [] m disk h = refl
  flush_all_clean fh (b ∷ l) m disk (hb, hl) = rw hb (flush_all_clean fh l m disk hl)

  -- When a file is closed and one chunk is dirty, of whichever file, then that chunk is written to the
  -- file that is closed, at the chunk's offset and once; nothing else is written, and no chunk is left.
  pub release_ignores_fd :
      (fh : ℕ) (c : Cache) (front back : List FileBuffer) (b : FileBuffer) (disk : Disk)
      → c.buffers ≡ front ++ b ∷ back
      → b.dirty ≡ true
      → All (λ (x : FileBuffer). x.dirty ≡ false) front
      → All (λ (x : FileBuffer). x.dirty ≡ false) back
      → ((release_file_buffer files fh c disk).1 ≡ (pwrite disk fh b.buf b.from).1)
        × ((release_file_buffer files fh c disk).0.buffers ≡ [])
  unfolding release_file_buffer flush_all
  release_ignores_fd fh c front back b disk e d hf hb =
      let written = (pwrite disk fh b.buf b.from).1 in
      (
        rw (e, flush_all_clean fh front (b ∷ back) disk hf, d)
            (ap (λ l. flush_all files fh l written) (sym (append-nil back))
              ∙ flush_all_clean fh back [] written hb),
        refl,
      )
