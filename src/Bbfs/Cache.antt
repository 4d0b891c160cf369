-- ===== src/Bbfs/Cache.antt =====
-- The buffer cache of project4/bbfs.c: a list of chunks, the most recently used first.
-- A chunk has the address that `calloc` gave it, since `hitinfo` points to chunks. The files behind
-- the cache are the system's, by the interface `Files`.
pub mod Inv
use ee.Base.{
  ℕ, zero, suc, ◌+◌, ◌-◌, ◌*◌, ◌%◌, Bool, true, false, not, ◌&&◌, ◌||◌, Option, none, some, List,
  [], ◌∷◌, ltb, leb, ◌==◌, if◌then◌else◌, take,
}
use ee.Bbfs.Policy.{Policy, Config, load_policy}

abbrev pub max_chunk_size : ℕ
max_chunk_size = 4096

abbrev pub max_list_size : ℕ
max_list_size = 1280

-- `pread` and `pwrite`: `none` stands for -1, a write that fails leaves a state all the same.
pub record Files : Type 1 where
  pub Disk : Type 0
  pub pread : Disk → (fd size offset : ℕ) → Option (List ℕ)
  pub pwrite : Disk → (fd : ℕ) → List ℕ → (offset : ℕ) → Option ℕ × Disk

-- `struct filebuffer`
pub record FileBuffer : Type 0 where
  pub addr : ℕ
  pub from : ℕ
  pub to : ℕ
  pub dirty : Bool
  pub fd : ℕ
  pub buf : List ℕ

-- The static variables; `next_addr` is the address of the next allocation.
pub record Cache : Type 0 where
  pub buffers : List FileBuffer
  pub buffer_count : ℕ
  pub access_count : ℕ
  pub hit_count : ℕ
  pub miss_count : ℕ
  pub next_addr : ℕ

pub data HitType : Type 0 where
  perfect_hit partial_hit partial_miss perfect_miss : HitType

-- `struct hitinfo`; a part is a pointer, and means something only where its `valid` is set.
pub record HitInfo : Type 0 where
  pub type : HitType
  pub valid_first : Bool
  pub valid_second : Bool
  pub firstpart : ℕ
  pub secondpart : ℕ

abbrev pub no_hit : HitInfo
no_hit = record {
  type = perfect_miss;
  valid_first = false;
  valid_second = false;
  firstpart = 0;
  secondpart = 0;
}

-- A chunk around the start of the request, and one around its end.
unfoldable pub note : ℕ → ℕ → ℕ → FileBuffer → HitInfo → HitInfo
note fd targetfrom targetto pos h =
    let inner = pos.fd == fd && (ltb pos.from targetfrom && ltb targetfrom pos.to) in
    let outer = pos.fd == fd && (ltb pos.from targetto && ltb targetto pos.to) in
    let h' : HitInfo = if inner then record h { valid_first = true; firstpart = pos.addr } else h in
    if outer then record h' { valid_second = true; secondpart = pos.addr } else h'

-- The loop of `bufferHitCheck`; it stops at a perfect hit.
unfoldable pub scan : ℕ → ℕ → ℕ → List FileBuffer → HitInfo → HitInfo
scan fd targetfrom targetto [] h = h
scan fd targetfrom targetto (pos ∷ rest) h =
    let more = scan fd targetfrom targetto rest (note fd targetfrom targetto pos h) in
    if pos.fd == fd && pos.from == targetfrom
    then record h { type = perfect_hit; valid_first = true; firstpart = pos.addr }
    else more

abbrev pub find : ℕ → List FileBuffer → Option FileBuffer
find a [] = none
find a (b ∷ l) = if b.addr == a then some b else find a l

abbrev pub remove : ℕ → List FileBuffer → List FileBuffer
remove a [] = []
remove a (b ∷ l) = if b.addr == a then l else b ∷ remove a l

-- `list_move` to the front.
abbrev pub list_move : ℕ → List FileBuffer → List FileBuffer
list_move a l = elim (find a l) [ none ↦ l | some b ↦ b ∷ remove a l ]

-- What `bufferHitCheck` does with the outcome of its loop, if that is no perfect hit and if it is.
unfoldable pub settle_parts : HitInfo → Cache → HitInfo × Cache
settle_parts h c =
    if h.valid_first && h.valid_second
    then (
      record h { type = partial_hit },
      record c {
        hit_count = c.hit_count + 1;
        buffers = list_move h.firstpart (list_move h.secondpart c.buffers);
      },
    )
    else if h.valid_first || h.valid_second
    then (
      record h { type = partial_miss },
      record c {
        miss_count = c.miss_count + 1;
        buffers = list_move (if h.valid_first then h.firstpart else h.secondpart) c.buffers;
      },
    )
    else (h, record c { miss_count = c.miss_count + 1 })

unfoldable pub settle : HitInfo → Cache → HitInfo × Cache
unfolding settle_parts
settle h c = elim h.type [
  | perfect_hit ↦
      (h, record c { hit_count = c.hit_count + 1; buffers = list_move h.firstpart c.buffers })
  | _ ↦ settle_parts h c
]

unfoldable pub buffer_hit_check : (offset req_size fd : ℕ) → Cache → HitInfo × Cache
buffer_hit_check offset req_size fd c =
    settle (scan fd offset (offset + req_size) c.buffers no_hit)
      (record c { access_count = c.access_count + 1 })

-- The chunk at a place in the list, counted from 1, and the others.
abbrev pub take_out : ℕ → List FileBuffer → Option FileBuffer × List FileBuffer
take_out k [] = (none, [])
take_out zero (b ∷ l) = let (o, r) = take_out zero l in (o, b ∷ r)
take_out (suc zero) (b ∷ l) = (some b, l)
take_out (suc (suc k)) (b ∷ l) = let (o, r) = take_out (suc k) l in (o, b ∷ r)

abbrev pub take_last : List FileBuffer → Option FileBuffer × List FileBuffer
take_last [] = (none, [])
take_last (b ∷ []) = (some b, [])
take_last (b ∷ d ∷ l) = let (o, r) = take_last (d ∷ l) in (o, b ∷ r)

module _ (files : Files) where
  open files use {Disk, pread, pwrite}

  -- A chunk that leaves the cache is written to its own file if it is dirty.
  abbrev pub write_back : Option FileBuffer → Disk → Disk
  write_back none disk = disk
  write_back (some b) disk = if b.dirty then (pwrite disk b.fd b.buf b.from).1 else disk

  -- The part of `addFileBuffer` that makes room; `rnd` is what `rand()` returns.
  unfoldable pub evict : Policy → (rnd : ℕ) → Cache → Disk → Cache × Disk
  evict p rnd c disk =
      let out =
        if p.cache_policy == 1
        then take_out (1 + rnd % c.buffer_count) c.buffers
        else take_last c.buffers in
      (record c { buffers = out.1; buffer_count = c.buffer_count - 1 }, write_back out.0 disk)

  -- The part of `addFileBuffer` that allocates a chunk and puts it in front.
  unfoldable pub insert_front : List ℕ → (from to fd : ℕ) → Cache → Cache
  insert_front bytes from to fd c =
      let fresh : FileBuffer = record {
        addr = c.next_addr;
        from = from;
        to = to;
        dirty = false;
        fd = fd;
        buf = take max_chunk_size bytes;
      } in
      record c {
        buffers = fresh ∷ c.buffers;
        buffer_count = c.buffer_count + 1;
        next_addr = c.next_addr + 1;
      }

  -- `addFileBuffer` for a chunk `bytes`; the policy is read again only when the list is full.
  unfoldable pub add_file_buffer :
      Option Config
      → (rnd : ℕ) → (bytes : List ℕ) (from to fd : ℕ) → Policy × Cache × Disk
      → Policy × Cache × Disk
  add_file_buffer config rnd bytes from to fd (p, c, disk) =
      if leb max_list_size c.buffer_count
      then (let p' = load_policy config p in
          let room = evict p' rnd c disk in (p', insert_front bytes from to fd room.0, room.1))
      else (p, insert_front bytes from to fd c, disk)

  -- The loop of `releaseFileBuffer`: dirty chunks go to the file that is being closed.
  unfoldable pub flush_all : (fh : ℕ) → List FileBuffer → Disk → Disk
  flush_all fh [] disk = disk
  flush_all fh (b ∷ l) disk =
      flush_all fh l (if b.dirty then (pwrite disk fh b.buf b.from).1 else disk)

  unfoldable pub release_file_buffer : (fh : ℕ) → Cache → Disk → Cache × Disk
  release_file_buffer fh c disk = (
    record c { buffers = []; buffer_count = 0; access_count = 0; hit_count = 0; miss_count = 0 },
    flush_all fh c.buffers disk,
  )

-- `removeAllBufferCache`
unfoldable pub remove_all_buffer_cache : Cache → Cache
remove_all_buffer_cache c = record c { buffers = []; buffer_count = 0 }
