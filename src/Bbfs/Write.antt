-- ===== src/Bbfs/Write.antt =====
-- `bb_write` of project4/bbfs.c, with `none` for behaviour that C leaves undefined.
pub mod Aligned
use ee.Base.{
  ℕ, zero, suc, ◌+◌, ◌-◌, ◌*◌, ◌%◌, Bool, true, false, not, ◌&&◌, Option, none, some, List, [], ◌∷◌,
  ◌++◌, ltb, ◌==◌, if◌then◌else◌, take, drop, replicate, length,
}
use ee.Base.Int.{ℤ}
use ee.Bbfs.Policy.{Policy, Config, load_policy}
use ee.Bbfs.Cipher.{encrypt, strncpy}
use ee.Bbfs.Cache.{
  Files, FileBuffer, Cache, HitType, perfect_hit, partial_hit, partial_miss, perfect_miss, HitInfo,
  buffer_hit_check, find, add_file_buffer, release_file_buffer, max_chunk_size,
}
use ee.Bbfs.Read.{◌>>=◌, join_text, chunk, chunk_from, chunk_to, State, after, pread_into, padded}

-- `memcpy(total + k, bytes, length bytes)`
abbrev pub overlay : ℕ → List ℕ → List ℕ → List ℕ
overlay k bytes total = take k total ++ (bytes ++ drop (k + length bytes) total)

-- `memcpy` into the chunk at an address, and the setting of its dirty flag.
abbrev pub set_buf : ℕ → List ℕ → List FileBuffer → List FileBuffer
set_buf a bytes [] = []
set_buf a bytes (b ∷ l) =
    if b.addr == a then record b { buf = take max_chunk_size bytes } ∷ l else b ∷ set_buf a bytes l

abbrev pub set_dirty : ℕ → List FileBuffer → List FileBuffer
set_dirty a [] = []
set_dirty a (b ∷ l) = if b.addr == a then record b { dirty = true } ∷ l else b ∷ set_dirty a l

abbrev pub rewrite : ℕ → List ℕ → Cache → Cache
rewrite a bytes c = record c { buffers = set_buf a bytes c.buffers }

abbrev pub rewrite_dirty : ℕ → List ℕ → Cache → Cache
rewrite_dirty a bytes c = record c { buffers = set_dirty a (set_buf a bytes c.buffers) }

module _ (files : Files) where
  open files use {Disk, pread, pwrite}

  module _ (config : Option Config) (rnd : ℕ) (fd size offset : ℕ) where
    -- `PARTIAL_MISS` with the first part in the cache: the second part is inserted under the offsets
    -- that follow it, as the source has it.
    unfoldable pub write_second : List ℕ → HitInfo → State files → Option (State files)
    write_second bytes h s = do
      start ← chunk_to h.firstpart s.cache
      let tempbuf = pread_into files s.disk fd size start
      first ← chunk h.firstpart s.cache
      joined ← join_text (2 * size) first tempbuf
      let total = overlay (offset % max_chunk_size) bytes joined
      let c = rewrite_dirty h.firstpart total s.cache
      some (
          after files (
            add_file_buffer files config rnd (drop size total) (start + size) (start + size + size)
              fd (s.policy, c, s.disk)))

    -- `PARTIAL_MISS` with the second part in the cache; its dirty flag is not set.
    unfoldable pub write_first : List ℕ → HitInfo → State files → Option (State files)
    write_first bytes h s = do
      from ← chunk_from h.secondpart s.cache
      let start = from - max_chunk_size
      let tempbuf = pread_into files s.disk fd size start
      second ← chunk h.secondpart s.cache
      joined ← join_text (2 * size) tempbuf second
      let total = overlay (offset % max_chunk_size) bytes joined
      let c = rewrite h.secondpart (drop size total) s.cache
      some (
          after files
            (add_file_buffer files config rnd total start (start + size) fd (s.policy, c, s.disk)))

    -- `PERFECT_MISS`: the chunks that are inserted are not dirty.
    unfoldable pub write_miss : List ℕ → State files → State files
    write_miss bytes s =
        if offset % max_chunk_size == 0
        then after files (
            add_file_buffer files config rnd
              (overlay 0 bytes (pread_into files s.disk fd size offset)) offset (offset + size) fd
              (s.policy, s.cache, s.disk))
        else (let start = offset - offset % max_chunk_size in
            let tempbuf =
              overlay (offset % max_chunk_size) bytes
                (pread_into files s.disk fd (size * 2) start) in
            after files (
              add_file_buffer files config rnd (drop size tempbuf) (start + size)
                (start + size + size) fd
                (add_file_buffer files config rnd tempbuf start (start + size) fd
                  (s.policy, s.cache, s.disk))))

    unfoldable pub write_cached : List ℕ → HitInfo → State files → Option (State files)
    write_cached bytes h s = elim h.type [
      | perfect_hit ↦ some (record s { cache = rewrite_dirty h.firstpart bytes s.cache })
      | partial_hit ↦ do
        first ← chunk h.firstpart s.cache
        second ← chunk h.secondpart s.cache
        joined ← join_text (2 * size) first second
        let total = overlay (offset % max_chunk_size) bytes joined
        some (record s {
          cache =
              rewrite_dirty h.secondpart (drop max_chunk_size total)
                (rewrite_dirty h.firstpart total s.cache);
        })
      | partial_miss ↦ if h.valid_first then write_second bytes h s else write_first bytes h s
      | perfect_miss ↦ some (write_miss bytes s)
    ]

    -- The result is the number of bytes written, or none for -1.
    unfoldable pub bb_write : List ℕ → State files → Option (Option ℕ × State files)
    bb_write buf s =
        let p = load_policy config s.policy in
        let bytes = encrypt p (strncpy buf) in
        let hit = buffer_hit_check offset size fd s.cache in
        let cached : Option (Option ℕ × State files) = (do
          s' ← write_cached bytes hit.0 (record { policy = p; cache = hit.1; disk = s.disk })
          some (some size, s')) in
        let direct = pwrite s.disk fd bytes offset in
        if not (p.cache_policy == 0) && size == max_chunk_size
        then cached
        else some (direct.0, record s { policy = p; disk = direct.1 })

  -- `close` is the system's, with its result.
  unfoldable pub bb_release :
      (close : Disk → (fd : ℕ) → ℤ × Disk) (fh : ℕ) → State files → ℤ × State files
  bb_release close fh s =
      let (cache, written) = release_file_buffer files fh s.cache s.disk in
      let (retstat, disk) = close written fh in (retstat, record s { cache = cache; disk = disk })
