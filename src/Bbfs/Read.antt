-- ===== src/Bbfs/Read.antt =====
-- `bb_read` of project4/bbfs.c. `none` as a result is behaviour that C leaves undefined: a text
-- operation on a chunk with no zero byte, or a chunk that is read after it was freed.
use ee.Base.{
  ℕ, ◌+◌, ◌-◌, ◌*◌, ◌%◌, not, ◌&&◌, Option, none, some, List, [], ◌∷◌, ◌++◌, ◌==◌, if◌then◌else◌,
  take, drop, replicate, length,
}
use ee.Bbfs.Policy.{Policy, Config, load_policy}
use ee.Bbfs.Cipher.{decrypt}
use ee.Bbfs.Cache.{
  Files, Cache, perfect_hit, partial_hit, partial_miss, perfect_miss, HitInfo, buffer_hit_check,
  find, add_file_buffer, max_chunk_size,
}

-- What a chunk holds as a C string; none if no byte of it is zero.
abbrev pub text_of : List ℕ → Option (List ℕ)
text_of [] = none
text_of (b ∷ l) =
    if b == 0 then some [] else elim (text_of l) [ none ↦ none | some t ↦ some (b ∷ t) ]

infixl 5 ◌>>=◌
abbrev pub ◌>>=◌ {ℓ κ} : {A : Type ℓ} {B : Type κ} → Option A → (A → Option B) → Option B
none >>= f = none
some a >>= f = f a

-- `n` bytes from `calloc` that begin with `bytes`.
abbrev pub padded : ℕ → List ℕ → List ℕ
padded n bytes = take n (bytes ++ replicate (n - length bytes) 0)

-- `sprintf(totalbuf, "%s%s", a, b)` into `n` zeroed bytes.
unfoldable pub join_text : ℕ → List ℕ → List ℕ → Option (List ℕ)
join_text n a b = do x ← text_of a; y ← text_of b; some (padded n (x ++ y))

-- The chunk that a pointer of `hitinfo` points to, if it was not freed.
abbrev pub chunk : ℕ → Cache → Option (List ℕ)
chunk a c = elim (find a c.buffers) [ none ↦ none | some b ↦ some b.buf ]

abbrev pub chunk_from : ℕ → Cache → Option ℕ
chunk_from a c = elim (find a c.buffers) [ none ↦ none | some b ↦ some b.from ]

abbrev pub chunk_to : ℕ → Cache → Option ℕ
chunk_to a c = elim (find a c.buffers) [ none ↦ none | some b ↦ some b.to ]

-- What a call returns: the bytes read, their number being the result, or the error of `pread`.
pub data Reply : Type 0 where
  got : List ℕ → Reply
  failed : Reply

module _ (files : Files) where
  open files use {Disk, pread, pwrite}

  -- The variables that outlive a call.
  pub record State : Type 0 where
    pub policy : Policy
    pub cache : Cache
    pub disk : Disk

  abbrev pub after : Policy × Cache × Disk → State
  after (p, c, d) = record { policy = p; cache = c; disk = d }

  -- `pread` into `n` zeroed bytes, its result ignored.
  abbrev pub pread_into : Disk → (fd n offset : ℕ) → List ℕ
  pread_into disk fd n offset = elim (pread disk fd n offset) [
    | none ↦ replicate n 0
    | some l ↦ padded n l
  ]

  module _ (config : Option Config) (rnd : ℕ) (fd size offset : ℕ) where
    -- The part of a two-chunk buffer that was asked for.
    abbrev window : List ℕ → List ℕ
    window total = take size (drop (offset % max_chunk_size) total)

    -- `PARTIAL_MISS` with the first part in the cache.
    unfoldable pub read_second : HitInfo → State → Option (List ℕ × State)
    read_second h s = do
      start ← chunk_to h.firstpart s.cache
      let tempbuf = pread_into s.disk fd size start
      let s' = after (
          add_file_buffer files config rnd tempbuf start (start + size) fd
            (s.policy, s.cache, s.disk))
      first ← chunk h.firstpart s'.cache
      total ← join_text (2 * size) first tempbuf
      some (window total, s')

    -- `PARTIAL_MISS` with the second part in the cache.
    unfoldable pub read_first : HitInfo → State → Option (List ℕ × State)
    read_first h s = do
      end ← chunk_to h.secondpart s.cache
      let start = end - max_chunk_size
      let tempbuf = pread_into s.disk fd size start
      let s' = after (
          add_file_buffer files config rnd tempbuf start (start + size) fd
            (s.policy, s.cache, s.disk))
      second ← chunk h.secondpart s'.cache
      total ← join_text (2 * size) tempbuf second
      some (window total, s')

    -- `PERFECT_MISS`, at a multiple of the chunk size or not.
    unfoldable pub read_miss : State → List ℕ × State
    read_miss s =
        if offset % max_chunk_size == 0
        then (let tempbuf = pread_into s.disk fd size offset in
            (
              take size tempbuf,
              after (
                  add_file_buffer files config rnd tempbuf offset (offset + size) fd
                    (s.policy, s.cache, s.disk)),
            ))
        else (let start = offset - offset % max_chunk_size in
            let tempbuf = pread_into s.disk fd (size * 2) start in
            (
              window tempbuf,
              after (
                  add_file_buffer files config rnd (drop size tempbuf) (start + size)
                    (start + size + size) fd
                    (add_file_buffer files config rnd tempbuf start (start + size) fd
                      (s.policy, s.cache, s.disk))),
            ))

    unfoldable pub read_cached : HitInfo → State → Option (List ℕ × State)
    read_cached h s = elim h.type [
      | perfect_hit ↦ do bytes ← chunk h.firstpart s.cache; some (take size bytes, s)
      | partial_hit ↦ do
        first ← chunk h.firstpart s.cache
        second ← chunk h.secondpart s.cache
        total ← join_text (2 * size) first second
        some (window total, s)
      | partial_miss ↦ if h.valid_first then read_second h s else read_first h s
      | perfect_miss ↦ some (read_miss s)
    ]

    unfoldable pub bb_read : State → Option (Reply × State)
    bb_read s =
        let p = load_policy config s.policy in
        let hit = buffer_hit_check offset size fd s.cache in
        let cached : Option (Reply × State) = (do
          out ← read_cached hit.0 (record { policy = p; cache = hit.1; disk = s.disk })
          some (got (decrypt out.1.policy out.0), out.1)) in
        let s' : State = record s { policy = p } in
        if not (p.cache_policy == 0) && size == max_chunk_size
        then cached
        else (elim (pread s.disk fd size offset) [
          | none ↦ some (failed, s')
          | some l ↦ some (got (decrypt p l), s')
        ])
