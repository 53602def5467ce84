-- ===== src/PrioTable/Pending.antt =====
-- No update of a PrioTable's stream (shared/prio_table.cc) is lost: an index that was marked stays
-- pending until NextUpdatedIndex returns it or asks for a scan of all.
use native.Mathlib.Nat.{mod-lt}
use ghost_userspace_o.Base.{
  ℕ, zero, suc, ◌+◌, ◌%◌, ◌≤◌, ◌<◌, ◌≡◌, ◌≢◌, refl, sym, ap, ◌∙◌, ◌⊎◌, inl, inr, Bool, true, false,
  not, ◌&&◌, ltb, ◌==◌, ==_refl, Option, none, some, update, arith, Bool-cases, Option-cases,
}
use ghost_userspace_o.Base.Int.{ℤ, pos}
use ghost_userspace_o.PrioTable.{
  Stream, free_entry, is_free, no_entries, overflow, place, mark_updated_index, scan, result,
  next_updated_index,
}

abbrev pub Standing : ℕ → ℤ → (ℕ → ℤ) → Type 0
Standing st_cap v entries = (i : ℕ) × (i < st_cap) × (entries i ≡ v)

-- A scan of all is asked for, or the index stands in an entry.
abbrev pub Pending : ℕ → ℕ → Stream → Type 0
Pending st_cap idx s = (s.scrape_all ≢ 0) ⊎ Standing st_cap (pos idx) s.entries

-- What the loop of MarkUpdatedIndex places stands in an entry, and every entry in use is kept.
placed :
    (st_cap : ℕ) (fails : ℕ → Bool) (idx n i : ℕ) (entries : ℕ → ℤ) {r : ℕ → ℤ}
    → 0 < st_cap
    → place st_cap fails idx n i entries ≡ some r
    → Standing st_cap (pos idx) r × ((k : ℕ) → is_free (entries k) ≡ false → r k ≡ entries k)
unfolding place
placed st_cap fails idx zero i entries h e = cc
placed st_cap fails idx (suc n) i entries {r} h e =
    let cell = (idx + i) % st_cap in
    elim (Bool-cases (is_free (entries cell) && not (fails i))) [
      | inr other ↦ placed st_cap fails idx n (i + 1) entries h (rw other at e)
      | inl hit ↦
          let done : some (update entries cell (pos idx)) ≡ some r = rw hit at e in
          let same : update entries cell (pos idx) ≡ r = cc in
          (
            (cell, mod-lt (idx + i) h, ap (λ f. f cell) (sym same) ∙ rw (==_refl cell) refl),
            λ k used. ap (λ f. f k) (sym same) ∙ kept k used hit,
          )
    ]
  where
    kept :
        (k : ℕ)
        → is_free (entries k) ≡ false
        → is_free (entries ((idx + i) % st_cap)) && not (fails i) ≡ true
        → update entries ((idx + i) % st_cap) (pos idx) k ≡ entries k
    kept k used hit = elim (Bool-cases ((idx + i) % st_cap == k)) [
      | inr other ↦ rw other
      | inl same ↦ absurd (clash (ground arith))
    ]
      where
        clash : (idx + i) % st_cap ≡ k → ⊥
        clash e =
            let used' : is_free (entries ((idx + i) % st_cap)) ≡ false = rw e used in
            ground (arith, used', hit)

-- An index is never mistaken for a free entry.
pos-in_use : (v : ℤ) (j : ℕ) → v ≡ pos j → is_free v ≡ false
pos-in_use v j e = rw e refl

-- After MarkUpdatedIndex of an index, for a stream of at least one entry, that index is pending,
-- and so is every index that was pending before, whatever the number of retries and whichever
-- weak compare-exchanges fail.
pub mark_updated_index-Pending :
    (st_cap : ℕ) (fails : ℕ → Bool) (idx num_retries : ℕ) (s : Stream) (j : ℕ)
    → 0 < st_cap
    → Pending st_cap j s ⊎ (j ≡ idx)
    → Pending st_cap j (mark_updated_index st_cap fails idx num_retries s)
unfolding mark_updated_index
mark_updated_index-Pending st_cap fails idx num_retries s j h was =
    elim (Bool-cases (ltb 0 s.scrape_all)) [
      | inl scraping ↦ rw scraping (inl (λ z. omega arith))
      | inr calm ↦
          rw calm (elim (Option-cases (place st_cap fails idx (num_retries + 1) 0 s.entries)) [
            | inl full ↦ rw full (inl (λ z. omega arith))
            | inr (r, e) ↦
                let (here, kept) = placed st_cap fails idx (num_retries + 1) 0 s.entries h e in
                rw e (go r here kept was calm)
          ])
    ]
  where
    go :
        (r : ℕ → ℤ)
        → Standing st_cap (pos idx) r
        → ((k : ℕ) → is_free (s.entries k) ≡ false → r k ≡ s.entries k)
        → Pending st_cap j s ⊎ (j ≡ idx)
        → ltb 0 s.scrape_all ≡ false
        → Pending st_cap j (record s { entries = r })
    go r here kept (inr e) calm = rw e (inr here)
    go r here kept (inl (inl asked)) calm = inl asked
    go r here kept (inl (inr (i, low, e))) calm =
        inr (i, low, kept i (pos-in_use (s.entries i) j e) ∙ e)

-- A scan that is not full returns an index or leaves it standing.
scan_keeps :
    (n i : ℕ) (entries : ℕ → ℤ) (k j : ℕ)
    → i ≤ k
    → k < i + n
    → entries k ≡ pos j
    → let r = scan n i false entries in
      (r.0 ≡ some (pos j)) ⊎ (((v : ℤ) × (r.0 ≡ some v)) × (r.1 k ≡ pos j))
unfolding scan
scan_keeps zero i entries k j low high e = absurd (omega arith)
scan_keeps (suc n) i entries k j low high e = elim (Bool-cases (is_free (entries i))) [
  | inl free ↦
      let ne : i ≢ k = λ z.
        let used : is_free (entries i) ≡ false = rw (z, e) refl in ground (arith, used, free) in
      rw free (scan_keeps n (i + 1) entries k j (omega (arith, ne)) (omega arith) e)
  | inr used ↦ rw used (elim (Bool-cases (i == k)) [
    | inl same ↦ let at : i ≡ k = ground arith in inl (ap some (ap entries at ∙ e))
    | inr other ↦ inr ((entries i, refl), (rw other e))
  ])
]

-- A full scan returns no index.
scan_full : (n i : ℕ) (entries : ℕ → ℤ) → (scan n i true entries).0 ≡ none
unfolding scan
scan_full zero i entries = refl
scan_full (suc n) i entries = elim (Bool-cases (is_free (entries i))) [
  | inl free ↦ rw free (scan_full n (i + 1) entries)
  | inr used ↦ rw used (scan_full n (i + 1) (update entries i free_entry))
]

-- If an index is pending in the stream (it stands in an entry, or a scan of all is asked for),
-- then NextUpdatedIndex returns it, or returns kStreamOverflow, or leaves it pending: no update
-- is lost, whatever other entries there are.
pub next_updated_index-Pending :
    (st_cap : ℕ) (s : Stream) (j : ℕ)
    → Pending st_cap j s
    → let r = next_updated_index st_cap s in (r.0 ≡ pos j) ⊎ (r.0 ≡ overflow) ⊎ Pending st_cap j r.1
unfolding next_updated_index
next_updated_index-Pending st_cap s j p = elim (Bool-cases (ltb 0 s.scrape_all)) [
  | inl full ↦ rw (full, scan_full st_cap 0 s.entries) (inr (inl refl))
  | inr calm ↦ rw calm (go p calm)
]
  where
    go :
        Pending st_cap j s
        → ltb 0 s.scrape_all ≡ false
        → let r = scan st_cap 0 false s.entries in
          (result false r.0 ≡ pos j)
          ⊎ (result false r.0 ≡ overflow)
          ⊎ Pending st_cap j (record { scrape_all = s.scrape_all; entries = r.1 })
    go (inl asked) calm = absurd (ground (arith, asked))
    go (inr (k, low, e)) calm =
        elim (scan_keeps st_cap 0 s.entries k j (omega arith) (omega arith) e) [
          | inl found ↦ rw found (inl refl)
          | inr (_, left) ↦ inr (inr (inr (k, low, left)))
        ]

-- A scan that is not full and returns nothing has met free entries only.
scan-none :
    (n i : ℕ) (entries : ℕ → ℤ)
    → (scan n i false entries).0 ≡ none
    → (k : ℕ) → i ≤ k
    → k < i + n
    → is_free (entries k) ≡ true
unfolding scan
scan-none zero i entries e k low high = absurd (omega arith)
scan-none (suc n) i entries e k low high = elim (Bool-cases (is_free (entries i))) [
  | inr used ↦ absurd (clash (rw used at e))
  | inl free ↦ elim (Bool-cases (i == k)) [
    | inl same ↦ let is : i ≡ k = ground arith in ap (λ x. is_free (entries x)) (sym is) ∙ free
    | inr other ↦ scan-none n (i + 1) entries (rw free at e) k (ground arith) (omega arith)
  ]
]
  where
    clash : {v : ℤ} → some v ≡ none → ⊥
    clash h = cc

-- A scan that is not full returns only what stands in an entry in use.
scan-some :
    (n i : ℕ) (entries : ℕ → ℤ) (v : ℤ)
    → (scan n i false entries).0 ≡ some v
    → ((k : ℕ) × (k < i + n) × (entries k ≡ v)) × (is_free v ≡ false)
unfolding scan
scan-some zero i entries v e = cc
scan-some (suc n) i entries v e = elim (Bool-cases (is_free (entries i))) [
  | inr used ↦
      let is : some (entries i) ≡ some v = rw used at e in
      let same : entries i ≡ v = cc in ((i, omega arith, same), ap is_free (sym same) ∙ used)
  | inl free ↦
      let ((k, low, at), used) = scan-some n (i + 1) entries v (rw free at e) in
      ((k, omega arith, at), used)
]

none-Standing :
    (st_cap : ℕ) (entries : ℕ → ℤ) (j : ℕ)
    → ((k : ℕ) → 0 ≤ k → k < st_cap → is_free (entries k) ≡ true)
    → Standing st_cap (pos j) entries
    → ⊥
none-Standing st_cap entries j free (k, low, e) =
    let used = pos-in_use (entries k) j e in
    let unused = free k (omega arith) low in ground (arith, used, unused)

-- What a result of a scan that is not full means.
Means : ℕ → (ℕ → ℤ) → Option ℤ → Type 0
Means st_cap entries o =
    (result false o ≡ no_entries → (j : ℕ) → Standing st_cap (pos j) entries → ⊥)
    × ((j : ℕ) → result false o ≡ pos j → Standing st_cap (pos j) entries)

scan-Means :
    (st_cap : ℕ) (entries : ℕ → ℤ) (o : Option ℤ)
    → (scan st_cap 0 false entries).0 ≡ o
    → Means st_cap entries o
unfolding Means
scan-Means st_cap entries none e = (
  (λ _ j stands.
      none-Standing st_cap entries j
        (λ k low high. scan-none st_cap 0 entries e k low (omega arith)) stands),
  (λ j h. cc),
)
scan-Means st_cap entries (some v) e =
    let ((k, low, at), used) = scan-some st_cap 0 entries v e in
    ((λ h j stands. absurd (ground (arith, used, h))), (λ j h. (k, omega arith, at ∙ h)))

-- If NextUpdatedIndex returns kStreamNoEntries, no index is pending, and if it returns an index,
-- that index stood in an entry.
pub next_updated_index-exact :
    (st_cap : ℕ) (s : Stream) (j : ℕ)
    → let r = next_updated_index st_cap s in
      (r.0 ≡ no_entries → Pending st_cap j s → ⊥)
      × (r.0 ≡ pos j → Standing st_cap (pos j) s.entries)
unfolding next_updated_index Means
next_updated_index-exact st_cap s j = elim (Bool-cases (ltb 0 s.scrape_all)) [
  | inl full ↦ rw (full, scan_full st_cap 0 s.entries) ((λ e p. cc), (λ e. cc))
  | inr calm ↦ rw calm (go calm (scan-Means st_cap s.entries _ refl))
]
  where
    go :
        ltb 0 s.scrape_all ≡ false
        → Means st_cap s.entries (scan st_cap 0 false s.entries).0
        → let o = (scan st_cap 0 false s.entries).0 in
          (result false o ≡ no_entries → Pending st_cap j s → ⊥)
          × (result false o ≡ pos j → Standing st_cap (pos j) s.entries)
    go calm (nothing, true_one) = (
      (λ e p. elim p [
        | inl asked ↦ absurd (ground (arith, asked, calm))
        | inr stands ↦ nothing e j stands
      ]),
      true_one j,
    )
