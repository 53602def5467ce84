-- ===== src/PrioTable/Layout.antt =====
-- The layout of PrioTable's shared memory (shared/prio_table.h and .cc): the header, the sched_items,
-- the work_classes and the stream. The structs are aligned to a cache line of 64 bytes (x86-64), and
-- their fields fit in one. Offsets are 32-bit words.
use ghost_userspace_o.Base.{
  ℕ, ◌+◌, ◌*◌, ◌%◌, ◌≤◌, ◌<◌, ◌≡◌, refl, true, ltb, ◌==◌, Outcome, ok, check, ◌>>=◌, ◌>>◌, Returns,
  arith,
}
use ghost_userspace_o.PrioTable.Seqcount.{u32}

-- sizeof(ghost_shmem_hdr), sizeof(sched_item), sizeof(work_class) and ABSL_CACHELINE_SIZE.
abbrev pub line : ℕ
line = 64

-- sizeof(stream) and its entries of four bytes.
abbrev pub stream_size : ℕ → ℕ
stream_size st_cap = 4 + 4 * st_cap

pub record Header : Type 0 where
  pub hdrlen : ℕ
  pub maplen : ℕ
  pub si_num : ℕ
  pub si_off : ℕ
  pub wc_num : ℕ
  pub wc_off : ℕ
  pub st_cap : ℕ
  pub st_off : ℕ

unfoldable pub shmem_size : ℕ → ℕ → ℕ → Outcome ℕ
shmem_size sched_items work_classes st_cap = do
  let sz = line + line * sched_items + line * work_classes
  check (sz % line == 0)
  ok (sz + stream_size st_cap)

-- The size of the mapping that GhostShmem is asked for, and the header.
unfoldable pub layout : ℕ → ℕ → ℕ → Outcome (ℕ × Header)
layout num_items num_classes st_cap = do
  size ← shmem_size num_items num_classes st_cap
  let wc_off = u32 (line + num_items * line)
  let st_off = u32 (wc_off + num_classes * line)
  check (st_off % line == 0)
  ok (
    size,
    record {
      hdrlen = line;
      maplen = u32 size;
      si_num = num_items;
      si_off = line;
      wc_num = num_classes;
      wc_off = wc_off;
      st_cap = st_cap;
      st_off = st_off;
    },
  )

-- The offset of a sched_item from the header.
unfoldable pub sched_item : Header → ℕ → Outcome ℕ
sched_item h i = do check (ltb i h.si_num); ok (h.si_off + i * line)

-- The header, the items, the classes and the stream follow one another from the start on without a
-- gap or an overlap, up to `maplen`.
pub record Tiles (items classes cap : ℕ) (h : Header) : Type 0 where
  pub header_end : line ≡ h.si_off
  pub items_end : h.si_off + line * items ≡ h.wc_off
  pub classes_end : h.wc_off + line * classes ≡ h.st_off
  pub stream_end : h.st_off + stream_size cap ≡ h.maplen
  pub aligned : h.st_off % line ≡ 0
  pub numbered : h.si_num ≡ items

lines_aligned : (a b : ℕ) → (line + line * a + line * b) % line ≡ 0
lines_aligned a b = omega arith

lines-u32 : (a : ℕ) → line + line * a < 4_294_967_296 → u32 (line + a * line) ≡ line + line * a
lines-u32 a h = omega arith

-- If the size of the mapping is below 2^32, the constructor passes its CHECKs, and the header,
-- the sched_items, the work_classes and the stream follow one another without a gap or an
-- overlap from the start of the mapping to its end, maplen is the size that was asked for, and
-- the stream starts on a cache line.
pub layout-Tiles :
    (items classes cap : ℕ)
    → line + line * items + line * classes + stream_size cap < 4_294_967_296
    → Returns
        (layout items classes cap)
        (λ (size, h). Tiles items classes cap h × (h.maplen ≡ size))
unfolding layout shmem_size
layout-Tiles items classes cap h =
    let fits : ((line + line * items + line * classes) % line == 0) ≡ true =
      ground (arith, lines_aligned items classes) in
    let w : u32 (line + items * line) ≡ line + line * items = omega arith in
    let s : u32 (line + line * items + classes * line) ≡ line + line * items + line * classes =
      omega arith in
    let m : u32 (line + line * items + line * classes + stream_size cap)
        ≡ line + line * items + line * classes + stream_size cap =
      omega arith in
    rw (fits, w, s, fits, m)
      (
        record {
          header_end = refl;
          items_end = refl;
          classes_end = refl;
          stream_end = refl;
          aligned = lines_aligned items classes;
          numbered = refl;
        },
        refl,
      )

-- In such a layout the accessor of a sched_item whose index is below their number passes its
-- CHECK, and the item lies between the start of the items and the start of the work_classes.
pub sched_item_inside :
    (items classes cap i : ℕ) (h : Header)
    → Tiles items classes cap h
    → i < items
    → Returns (sched_item h i) (λ o. (h.si_off ≤ o) × (o + line ≤ h.wc_off))
unfolding sched_item
sched_item_inside items classes cap i h t low =
    let found : ltb i h.si_num ≡ true = ground (arith, t.numbered) in
    rw found (omega arith, omega (arith, t.items_end))
