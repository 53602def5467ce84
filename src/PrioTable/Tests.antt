-- ===== src/PrioTable/Tests.antt =====
-- PrioTable (shared/prio_table) on small inputs, and its theorems at such inputs.
use ghost_userspace_o.Base.{
  ℕ, ◌+◌, ◌≤◌, ◌≡◌, ◌⊎◌, ◌↔◌, refl, inr, Bool, true, false, none, List, [], ◌∷◌, Returns, arith,
}
use ghost_userspace_o.Base.Int.{pos}
use ghost_userspace_o.PrioTable.{
  Stream, empty_stream, no_entries, overflow, mark_updated_index, next_updated_index,
}
use ghost_userspace_o.PrioTable.Pending.{
  Pending, Standing, mark_updated_index-Pending, next_updated_index-Pending,
  next_updated_index-exact,
}
use ghost_userspace_o.PrioTable.Seqcount.{
  WriterStep, no_writers, read_begin, read_end, writer_steps, writes, read_end_iff,
}
use ghost_userspace_o.PrioTable.Layout.{
  layout, Tiles, layout-Tiles, sched_item_inside, sched_item, Header, line,
}

abbrev never : ℕ → Bool
never i = false

-- Index 14 is marked in a stream of 11 entries.
abbrev marked : Stream
marked = mark_updated_index 11 never 14 2 empty_stream

mark_updated_index-Pending_example : Pending 11 14 marked
mark_updated_index-Pending_example =
    mark_updated_index-Pending 11 never 14 2 empty_stream 14 (omega arith) (inr refl)

next_updated_index-Pending_example :
    let r = next_updated_index 11 marked in (r.0 ≡ pos 14) ⊎ (r.0 ≡ overflow) ⊎ Pending 11 14 r.1
next_updated_index-Pending_example =
    next_updated_index-Pending 11 marked 14 mark_updated_index-Pending_example

next_updated_index-exact_example :
    let r = next_updated_index 11 marked in
    (r.0 ≡ no_entries → Pending 11 14 marked → ⊥)
    × (r.0 ≡ pos 14 → Standing 11 (pos 14) marked.entries)
next_updated_index-exact_example = next_updated_index-exact 11 marked 14

-- Writer 1 writes; then writer 2 is at work.
abbrev one_write : List WriterStep
one_write = WriterStep.tries 1 ∷ WriterStep.ends 1 ∷ []

abbrev half_write : List WriterStep
half_write = WriterStep.tries 2 ∷ WriterStep.tries 3 ∷ []

read_end_iff_example :
    let s = writer_steps one_write no_writers in
    (read_end (read_begin s.seqnum) (writer_steps half_write s).seqnum ≡ true)
    ↔ (((w : ℕ) → s.at_work w ≡ none) × (writes half_write s ≡ 0))
read_end_iff_example = read_end_iff one_write half_write (omega arith)

layout-Tiles_example : Returns (layout 8 2 19) (λ (size, h). Tiles 8 2 19 h × (h.maplen ≡ size))
layout-Tiles_example = layout-Tiles 8 2 19 (omega arith)

abbrev small : Header
small = record {
  hdrlen = 64;
  maplen = 784;
  si_num = 8;
  si_off = 64;
  wc_num = 2;
  wc_off = 576;
  st_cap = 19;
  st_off = 704;
}

small-Tiles : Tiles 8 2 19 small
small-Tiles = record {
  header_end = refl;
  items_end = refl;
  classes_end = refl;
  stream_end = refl;
  aligned = refl;
  numbered = refl;
}

sched_item_inside_example : Returns (sched_item small 7) (λ o. (64 ≤ o) × (o + line ≤ 576))
sched_item_inside_example = sched_item_inside 8 2 19 7 small small-Tiles (omega arith)
