-- ===== src/Bbfs/Tests.antt =====
-- The cache and the encryption of project4/bbfs.c on concrete files and chunks.
use ee.Base.{
  ℕ, zero, suc, ◌+◌, ◌≡◌, ◌≢◌, refl, true, false, Bool, Option, some, List, [], ◌∷◌, arith, length,
  All, take, drop, replicate, length-replicate,
}
use ee.Base.Int.{pos}
use mathlib.Core.List.{Perm}
use ee.Bbfs.Policy.{Policy, Config, load_policy}
use ee.Bbfs.Cipher.{encrypt, decrypt}
use ee.Bbfs.Cipher.Laws.{IsByte, decrypt-encrypt}
use ee.Bbfs.Cache.{
  Files, FileBuffer, Cache, no_hit, note, scan, buffer_hit_check, add_file_buffer,
  release_file_buffer, max_chunk_size,
}
use ee.Bbfs.Cache.Inv.{
  IsValid, holds, buffer_hit_check-IsValid, add_file_buffer-IsValid, release_ignores_fd,
}
use ee.Bbfs.Read.{got, State, bb_read}
use ee.Bbfs.Write.{overlay, bb_write, bb_release}
use ee.Bbfs.Write.Aligned.{reply, read_after_write, aligned_write_lost}

abbrev policy : Policy
policy = record { encrypt_enabled = true; for_addition = 13; for_shift = 3; cache_policy = 2 }

abbrev config : Option Config
config = some (record { first = pos 13; second = pos 3; third = pos 2 })

-- One file for all descriptors.
abbrev one_file : Files
one_file = record {
  Disk = List ℕ;
  pread = λ disk fd size offset. some (take size (drop offset disk));
  pwrite = λ disk fd bytes offset. (some (length bytes), overlay offset bytes disk);
}

abbrev chunk_at : ℕ → ℕ → Bool → FileBuffer
chunk_at a from dirty = record {
  addr = a;
  from = from;
  to = from + max_chunk_size;
  dirty = dirty;
  fd = 3;
  buf = 7 ∷ 0 ∷ [];
}

abbrev holding : List FileBuffer → Cache
holding l = record {
  buffers = l;
  buffer_count = length l;
  access_count = 2;
  hit_count = 0;
  miss_count = 2;
  next_addr = 3;
}

abbrev two : Cache
two = holding (chunk_at 2 4096 true ∷ chunk_at 1 0 true ∷ [])

two-IsValid : IsValid two
two-IsValid = record { counted = refl; bounded = omega arith; accesses = refl }

decrypt-encrypt_example :
    decrypt policy (encrypt policy (72 ∷ 105 ∷ 255 ∷ [])) ≡ 72 ∷ 105 ∷ 255 ∷ []
decrypt-encrypt_example =
    decrypt-encrypt policy (72 ∷ 105 ∷ 255 ∷ [])
      (omega arith, (omega arith, (omega arith, record {})))

buffer_hit_check-IsValid_example :
    IsValid (buffer_hit_check 0 4096 3 two).1
    × Perm (buffer_hit_check 0 4096 3 two).1.buffers two.buffers
    × ((buffer_hit_check 0 4096 3 two).1.access_count ≡ 3)
buffer_hit_check-IsValid_example = buffer_hit_check-IsValid 0 4096 3 two two-IsValid

add_file_buffer-IsValid_example :
    IsValid (add_file_buffer one_file config 5 (9 ∷ []) 8192 12288 3 (policy, two, [])).1
    × (holds 3 8192
          (add_file_buffer one_file config 5 (9 ∷ []) 8192 12288 3 (policy, two, [])).1.buffers
        ≡ true)
    × (length (add_file_buffer one_file config 5 (9 ∷ []) 8192 12288 3 (policy, two, [])).1.buffers
        ≡ 3)
add_file_buffer-IsValid_example =
    add_file_buffer-IsValid one_file config 5 (9 ∷ []) 8192 12288 3 policy two [] two-IsValid

-- A dirty chunk of file 4, when file 9 is closed.
abbrev foreign : FileBuffer
foreign = record (chunk_at 1 1 true) { fd = 4; buf = 8 ∷ [] }

release_ignores_fd_example :
    ((release_file_buffer one_file 9 (holding (chunk_at 2 0 false ∷ foreign ∷ [])) (5 ∷ 5 ∷ [])).1
      ≡ 5 ∷ 8 ∷ [])
    × ((release_file_buffer one_file 9
          (holding (chunk_at 2 0 false ∷ foreign ∷ []))
          (5 ∷ 5 ∷ [])).0.buffers
        ≡ [])
release_ignores_fd_example =
    release_ignores_fd one_file 9 (holding (chunk_at 2 0 false ∷ foreign ∷ []))
      (chunk_at 2 0 false ∷ []) [] foreign (5 ∷ 5 ∷ []) refl refl (refl, tt) tt

All-replicate : (P : ℕ → Type 0) (n a : ℕ) → P a → All P (replicate n a)
All-replicate P zero a h = record {}
All-replicate P (suc n) a h = (h, All-replicate P n a h)

abbrev state : State one_file
state = record { policy = policy; cache = holding (chunk_at 1 0 false ∷ []); disk = 1 ∷ 2 ∷ [] }

state_misses : scan 3 8192 (8192 + max_chunk_size) state.cache.buffers no_hit ≡ no_hit
unfolding scan note
state_misses = refl

caching_on : (load_policy config policy).cache_policy ≢ 0
unfolding load_policy
caching_on e = ground (arith, e)

abbrev page : List ℕ
page = replicate max_chunk_size 65

read_after_write_example :
    (s : State one_file) × (bb_write one_file config 5 3 max_chunk_size 8192 page state
      ≡ some (some max_chunk_size, s))
    × (reply one_file (bb_read one_file config 5 3 max_chunk_size 8192 s) ≡ some (got page))
read_after_write_example =
    read_after_write one_file config 5 3 8192 page state caching_on refl
      (length-replicate {A = ℕ} max_chunk_size 65)
      (All-replicate IsByte max_chunk_size 65 (omega arith))
      (All-replicate (λ b. b ≢ 0) max_chunk_size 65 (λ e. ground (arith, e))) state_misses
      (omega arith)

aligned_write_lost_example :
    (s : State one_file) × (bb_write one_file config 5 3 max_chunk_size 8192 page state
      ≡ some (some max_chunk_size, s))
    × ((bb_release one_file (λ d fd. (pos 0, d)) 3 s).1.disk ≡ 1 ∷ 2 ∷ [])
aligned_write_lost_example =
    aligned_write_lost one_file config 5 3 8192 page state (λ d fd. (pos 0, d)) caching_on refl
      (length-replicate {A = ℕ} max_chunk_size 65)
      (All-replicate (λ b. b ≢ 0) max_chunk_size 65 (λ e. ground (arith, e))) state_misses
      (omega arith) (refl, record {})
