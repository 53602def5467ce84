-- ===== src/PrioTable.antt =====
-- PrioTable::stream of shared/prio_table.h and .cc: the table by which an application tells the agent
-- which of its sched_items changed. An entry holds an index or is free; when no cell is found, the
-- counter scrape_all asks for a scan of all. A call of MarkUpdatedIndex or NextUpdatedIndex is one
-- step here: how their loads and stores interleave is not modelled, nor is the counter's overflow.
-- Indices and numbers of retries are not negative.
pub mod Pending
pub mod Seqcount
pub mod Layout
mod Tests
use ghost_userspace_o.Base.{
  ℕ, zero, suc, ◌+◌, ◌%◌, Bool, true, false, not, ◌&&◌, ◌||◌, if◌then◌else◌, ltb, ◌==◌, Option,
  none, some, update,
}
use ghost_userspace_o.Base.Int.{ℤ, pos, negsuc}

-- numeric_limits<uint32_t>::max() as an int.
abbrev pub free_entry : ℤ
free_entry = negsuc 0

abbrev pub is_free : ℤ → Bool
is_free (pos n) = false
is_free (negsuc n) = n == 0

abbrev pub no_entries : ℤ
no_entries = negsuc 0

abbrev pub overflow : ℤ
overflow = negsuc 1

pub record Stream : Type 0 where
  pub scrape_all : ℕ
  pub entries : ℕ → ℤ

-- The constructor frees all entries; the memory is zeroed.
abbrev pub empty_stream : Stream
empty_stream = record { scrape_all = 0; entries = λ _. free_entry }

-- The loop of MarkUpdatedIndex, of `n` tries from try `i` on. A weak compare-exchange may fail
-- although the cell is free: `fails i` says whether that of try `i` does.
unfoldable pub place : ℕ → (ℕ → Bool) → ℕ → ℕ → ℕ → (ℕ → ℤ) → Option (ℕ → ℤ)
place st_cap fails idx zero i entries = none
place st_cap fails idx (suc n) i entries =
    let cell = (idx + i) % st_cap in
    let rest = place st_cap fails idx n (i + 1) entries in
    if is_free (entries cell) && not (fails i) then some (update entries cell (pos idx)) else rest

abbrev pub fetch_add : Stream → Stream
fetch_add s = record s { scrape_all = s.scrape_all + 1 }

unfoldable pub mark_updated_index : ℕ → (ℕ → Bool) → ℕ → ℕ → Stream → Stream
mark_updated_index st_cap fails idx num_retries s =
    if ltb 0 s.scrape_all
    then fetch_add s
    else elim (place st_cap fails idx (num_retries + 1) 0 s.entries) [
      | none ↦ fetch_add s
      | some entries ↦ record s { entries = entries }
    ]

-- The loop of NextUpdatedIndex, of `n` entries from entry `i` on: it frees what it passes, and
-- returns at the first entry in use unless this is a full scan.
unfoldable pub scan : ℕ → ℕ → Bool → (ℕ → ℤ) → Option ℤ × (ℕ → ℤ)
scan zero i full_scan entries = (none, entries)
scan (suc n) i full_scan entries =
    let freed = if is_free (entries i) then entries else update entries i free_entry in
    let rest = scan n (i + 1) full_scan freed in
    if is_free (entries i) || full_scan then rest else (some (entries i), freed)

abbrev pub result : Bool → Option ℤ → ℤ
result full_scan none = if full_scan then overflow else no_entries
result full_scan (some idx) = idx

unfoldable pub next_updated_index : ℕ → Stream → ℤ × Stream
next_updated_index st_cap s =
    let full_scan = ltb 0 s.scrape_all in
    let r = scan st_cap 0 full_scan s.entries in
    let s' : Stream = record {
      scrape_all = if full_scan then 0 else s.scrape_all;
      entries = r.1;
    } in
    (result full_scan r.0, s')
