-- ===== src/Bbfs/Write/Aligned.antt =====
-- A write of a whole chunk that no chunk in the cache of project4/bbfs.c overlaps: what a read gets
-- back, and what is left of it once the file is closed.
use ee.Base.{
  ℕ, ◌+◌, ◌%◌, ◌<◌, ◌≡◌, ◌≢◌, refl, true, false, Option, none, some, List, [], ◌∷◌, ◌++◌, arith,
  leb, ◌==◌, ◌&&◌, length, Bool-cases, inl, inr, All, take, length-map, map, sym, ap, ◌∙◌,
}
use ee.Base.Int.{ℤ}
use ee.Bbfs.Policy.{Policy, Config, load_policy}
use ee.Bbfs.Cipher.{encrypt, decrypt, add_char, apply_bitshift, right}
use ee.Bbfs.Cipher.Laws.{IsByte, decrypt-encrypt, strncpy_lem}
use ee.Bbfs.Cache.{
  Files, FileBuffer, Cache, perfect_hit, no_hit, scan, settle, settle_parts, find, list_move,
  remove, buffer_hit_check, insert_front, add_file_buffer, flush_all, release_file_buffer,
  max_chunk_size, max_list_size,
}
use ee.Bbfs.Read.{◌>>=◌, Reply, got, State, pread_into, read_cached, bb_read}
use ee.Bbfs.Write.{overlay, write_miss, write_cached, bb_write, bb_release}

-- Reading the configuration twice is as good as once.
load_policy_idem :
    (config : Option Config) (p : Policy)
    → load_policy config (load_policy config p) ≡ load_policy config p
unfolding load_policy
load_policy_idem none p = refl
load_policy_idem (some c) p = ground arith

take-append : (xs ys : List ℕ) → take (length xs) (xs ++ ys) ≡ xs
take-append [] ys = refl
take-append (x ∷ xs) ys = ap (x ∷◌) (take-append xs ys)

take-all : (xs : List ℕ) → take (length xs) xs ≡ xs
take-all [] = refl
take-all (x ∷ xs) = ap (x ∷◌) (take-all xs)

take-length : (n : ℕ) (xs : List ℕ) → length xs ≡ n → take n xs ≡ xs
take-length n xs h = rw (sym h) (take-all xs)

find_front :
    (b : FileBuffer) (l : List FileBuffer)
    → (find b.addr (b ∷ l) ≡ some b) × (list_move b.addr (b ∷ l) ≡ b ∷ l)
find_front b l =
    let e : (b.addr == b.addr) ≡ true = ground arith in
    (rw e refl, rw (list_move, e) (rw (remove, e) refl))

hit_front :
    (offset size : ℕ) (c : Cache) (b : FileBuffer) (l : List FileBuffer)
    → c.buffers ≡ b ∷ l
    → b.from ≡ offset
    → buffer_hit_check offset size b.fd c ≡ (
      record no_hit { type = perfect_hit; valid_first = true; firstpart = b.addr },
      record c { buffers = b ∷ l; access_count = c.access_count + 1; hit_count = c.hit_count + 1 },
    )
unfolding buffer_hit_check scan settle
hit_front offset size c b l e f =
    let q : (b.fd == b.fd && b.from == offset) ≡ true = ground arith in
    rw (e, q, (find_front b l).1) refl

-- The cache as a search leaves it that finds nothing.
abbrev missed : Cache → Cache
missed c = record c { access_count = c.access_count + 1; miss_count = c.miss_count + 1 }

check_missed :
    (offset size fd : ℕ) (c : Cache)
    → scan fd offset (offset + size) c.buffers no_hit ≡ no_hit
    → buffer_hit_check offset size fd c ≡ (no_hit, missed c)
unfolding buffer_hit_check settle settle_parts
check_missed offset size fd c h = rw h refl

-- The chunk that such a write adds.
abbrev chunk_of : List ℕ → (offset fd : ℕ) → Cache → FileBuffer
chunk_of bytes offset fd c = record {
  addr = c.next_addr;
  from = offset;
  to = offset + max_chunk_size;
  dirty = false;
  fd = fd;
  buf = take max_chunk_size bytes;
}

length-encrypt : (p : Policy) (l : List ℕ) → length (encrypt p l) ≡ length l
unfolding encrypt
length-encrypt p l = elim (Bool-cases p.encrypt_enabled) [
  | inl e ↦
      rw
        (
          e,
          length-map (map (add_char p.for_addition) l) (λ b. apply_bitshift b right p.for_shift 8),
        )
        (length-map l (add_char p.for_addition))
  | inr e ↦ rw e refl
]

overlay_whole : (n : ℕ) (xs total : List ℕ) → length xs ≡ n → take n (overlay 0 xs total) ≡ xs
overlay_whole n xs total h = rw (sym h) (take-append xs _)

module _ (files : Files) where
  open files use {Disk}

  insert_front_cong :
      (xs ys : List ℕ) (from to fd : ℕ) (c : Cache)
      → take max_chunk_size xs ≡ take max_chunk_size ys
      → insert_front files xs from to fd c ≡ insert_front files ys from to fd c
  unfolding insert_front
  insert_front_cong xs ys from to fd c h = rw h refl

  abbrev written : Policy → List ℕ → (offset fd : ℕ) → State files → State files
  written p bytes offset fd s = record {
    policy = p;
    cache = insert_front files bytes offset (offset + max_chunk_size) fd (missed s.cache);
    disk = s.disk;
  }

  write_whole :
      (config : Option Config) (rnd fd offset : ℕ) (block : List ℕ) (s : State files)
      → (load_policy config s.policy).cache_policy ≢ 0
      → offset % max_chunk_size ≡ 0
      → length block ≡ max_chunk_size
      → All (λ b. b ≢ 0) block
      → scan fd offset (offset + max_chunk_size) s.cache.buffers no_hit ≡ no_hit
      → s.cache.buffer_count < max_list_size
      → bb_write files config rnd fd max_chunk_size offset block s
        ≡ some (
          some max_chunk_size,
          written
              (load_policy config s.policy)
              (encrypt (load_policy config s.policy) block)
              offset
              fd
              s,
        )
  unfolding bb_write write_cached write_miss add_file_buffer
  write_whole config rnd fd offset block s on aligned len text miss room =
      let e1 : ((load_policy config s.policy).cache_policy == 0) ≡ false = ground arith in
      let e2 : leb max_list_size s.cache.buffer_count ≡ false = ground arith in
      let e3 = (strncpy_lem block [] text).0 in
      let e4 =
        overlay_whole max_chunk_size (encrypt (load_policy config s.policy) block)
          (pread_into files s.disk fd max_chunk_size offset)
          (length-encrypt (load_policy config s.policy) block ∙ len)
        ∙ sym (
            take-length max_chunk_size (encrypt (load_policy config s.policy) block)
              (length-encrypt (load_policy config s.policy) block ∙ len)) in
      rw
        (
          e1,
          check_missed offset max_chunk_size fd s.cache miss,
          aligned,
          e2,
          e3,
          insert_front_cong _ _ offset (offset + max_chunk_size) fd (missed s.cache) e4,
        )
        refl

  -- The reply of a read.
  abbrev pub reply : Option (Reply × State files) → Option Reply
  reply none = none
  reply (some (r, s)) = some r

  read_hit :
      (config : Option Config) (rnd fd size offset a : ℕ) (s : State files) (b : FileBuffer)
      → find a s.cache.buffers ≡ some b
      → read_cached files config rnd fd size offset
          (record no_hit { type = perfect_hit; valid_first = true; firstpart = a })
          s
        ≡ some (take size b.buf, s)
  unfolding read_cached
  read_hit config rnd fd size offset a s b f =
      ap (λ (o : Option FileBuffer). bytes_of o >>= (λ bytes. some (take size bytes, s))) f
    where
      bytes_of : Option FileBuffer → Option (List ℕ)
      bytes_of none = none
      bytes_of (some b) = some b.buf

  read_front :
      (config : Option Config) (rnd fd offset : ℕ) (bytes : List ℕ) (p : Policy) (s : State files)
      → load_policy config p ≡ p
      → p.cache_policy ≢ 0
      → length bytes ≡ max_chunk_size
      → reply (bb_read files config rnd fd max_chunk_size offset (written p bytes offset fd s))
        ≡ some (got (decrypt p bytes))
  unfolding bb_read read_cached insert_front
  read_front config rnd fd offset bytes p s same on len =
      let e1 : (p.cache_policy == 0) ≡ false = ground arith in
      let t = hit_front offset max_chunk_size (written p bytes offset fd s).cache _ _ refl refl in
      let e4 = take-length max_chunk_size bytes len in
      let r =
        read_hit config rnd fd max_chunk_size offset s.cache.next_addr
          (record (written p bytes offset fd s) {
            cache = record (written p bytes offset fd s).cache {
              access_count = s.cache.access_count + 1 + 1;
              hit_count = s.cache.hit_count + 1;
            };
          })
          (chunk_of bytes offset fd s.cache) (find_front _ s.cache.buffers).0 in
      rw (bb_read, same, e1, t, r, e4, e4) refl

  -- With a cache policy on, 4096 bytes without a zero byte are written at a multiple of 4096,
  -- where the search finds no chunk and the list is not full: all are accepted, and a read of the
  -- same range then returns exactly them.
  pub read_after_write :
      (config : Option Config) (rnd fd offset : ℕ) (block : List ℕ) (s : State files)
      → (load_policy config s.policy).cache_policy ≢ 0
      → offset % max_chunk_size ≡ 0
      → length block ≡ max_chunk_size
      → All IsByte block
      → All (λ b. b ≢ 0) block
      → scan fd offset (offset + max_chunk_size) s.cache.buffers no_hit ≡ no_hit
      → s.cache.buffer_count < max_list_size
      → (s' : State files) × (bb_write files config rnd fd max_chunk_size offset block s
          ≡ some (some max_chunk_size, s'))
        × (reply (bb_read files config rnd fd max_chunk_size offset s') ≡ some (got block))
  read_after_write config rnd fd offset block s on aligned len bytes text miss room =
      let p = load_policy config s.policy in
      (
        written p (encrypt p block) offset fd s,
        write_whole config rnd fd offset block s on aligned len text miss room,
        read_front config rnd fd offset (encrypt p block) p s (load_policy_idem config s.policy) on
              (length-encrypt p block ∙ len)
            ∙ ap (λ l. some (got l)) (decrypt-encrypt p block bytes),
      )

  flush_clean :
      (fh : ℕ) (l : List FileBuffer) (d : Disk)
      → All (λ (b : FileBuffer). b.dirty ≡ false) l
      → flush_all files fh l d ≡ d
  unfolding flush_all
  flush_clean fh [] d h = refl
  flush_clean fh (b ∷ l) d (hb, hl) = rw hb (flush_clean fh l d hl)

  -- With a cache policy on, 4096 bytes without a zero byte are written at a multiple of 4096,
  -- where the search finds no chunk, the list is not full and no chunk in it is dirty: the write
  -- reports success, but `bb_release` of the file then closes it with the disk as it was before.
  pub aligned_write_lost :
      (config : Option Config) (rnd fd offset : ℕ) (block : List ℕ) (s : State files)
      (close : Disk → (fd : ℕ) → ℤ × Disk)
      → (load_policy config s.policy).cache_policy ≢ 0
      → offset % max_chunk_size ≡ 0
      → length block ≡ max_chunk_size
      → All (λ b. b ≢ 0) block
      → scan fd offset (offset + max_chunk_size) s.cache.buffers no_hit ≡ no_hit
      → s.cache.buffer_count < max_list_size
      → All (λ (b : FileBuffer). b.dirty ≡ false) s.cache.buffers
      → (s' : State files) × (bb_write files config rnd fd max_chunk_size offset block s
          ≡ some (some max_chunk_size, s'))
        × ((bb_release files close fd s').1.disk ≡ (close s.disk fd).1)
  unfolding bb_release release_file_buffer insert_front
  aligned_write_lost config rnd fd offset block s close on aligned len text miss room clean =
      let p = load_policy config s.policy in
      (
        written p (encrypt p block) offset fd s,
        write_whole config rnd fd offset block s on aligned len text miss room,
        ap (λ d. (close d fd).1) (flush_clean fd _ s.disk (refl, clean)),
      )
