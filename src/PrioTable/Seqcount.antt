-- ===== src/PrioTable/Seqcount.antt =====
-- The sequence counter of shared/prio_table.h: a 32-bit word that is odd while a writer is at work.
-- An operation of it is one step; write_begin, which waits until it is not locked, then does what
-- try_write_begin does. DCHECK tests nothing in a release build.
use ghost_userspace_o.Base.{
  ℕ, ◌+◌, ◌%◌, ◌<◌, ◌≤◌, ◌≡◌, ◌⊎◌, ◌↔◌, refl, ◌∙◌, Bool, true, false, not, ◌&&◌, if◌then◌else◌,
  ◌==◌, arith, Bool-cases, Option-cases, inl, inr, Option, none, some, List, [], ◌∷◌, length,
  update,
}

abbrev pub u32 : ℕ → ℕ
u32 n = n % 4_294_967_296

-- seq & kLocked.
abbrev pub is_locked : ℕ → Bool
is_locked seq = seq % 2 == 1

-- Whether the lock was taken, and the number that write_end gets.
unfoldable pub try_write_begin : ℕ → (Bool × ℕ) × ℕ
try_write_begin seqnum =
    let taken = not (is_locked seqnum) in
    ((taken, u32 (seqnum + 1)), if taken then u32 (seqnum + 1) else seqnum)

unfoldable pub write_end : ℕ → ℕ → ℕ
write_end begin seqnum = u32 (begin + 1)

abbrev pub read_begin : ℕ → ℕ
read_begin seqnum = seqnum

unfoldable pub read_end : ℕ → ℕ → Bool
read_end begin seqnum = not (is_locked begin) && begin == seqnum

-- The word, and what each writer at work got from try_write_begin.
pub record Writers : Type 0 where
  pub seqnum : ℕ
  pub at_work : ℕ → Option ℕ

abbrev pub no_writers : Writers
no_writers = record { seqnum = 0; at_work = λ w. none }

-- A writer that is not at work tries to begin, and one that is at work ends.
pub data WriterStep : Type 0 where
  tries ends : ℕ → WriterStep

abbrev pub tried : ℕ → Writers → (Bool × ℕ) × ℕ → Writers
tried w s ((true, begin), seqnum) = record {
  seqnum = seqnum;
  at_work = update s.at_work w (some begin);
}
tried w s ((false, begin), seqnum) = record s { seqnum = seqnum }

unfoldable pub writer_step : WriterStep → Writers → Writers
writer_step (WriterStep.tries w) s = elim (s.at_work w) [
  | none ↦ tried w s (try_write_begin s.seqnum)
  | some begin ↦ s
]
writer_step (WriterStep.ends w) s = elim (s.at_work w) [
  | none ↦ s
  | some begin ↦ record { seqnum = write_end begin s.seqnum; at_work = update s.at_work w none }
]

unfoldable pub writer_steps : List WriterStep → Writers → Writers
writer_steps [] s = s
writer_steps (e ∷ es) s = writer_steps es (writer_step e s)

-- How many of the steps changed the word.
unfoldable pub writes : List WriterStep → Writers → ℕ
writes [] s = 0
writes (e ∷ es) s =
    let rest = writes es (writer_step e s) in
    if (writer_step e s).seqnum == s.seqnum then rest else rest + 1

-- At most one writer is at work, it has the number of the word, and the word is odd exactly then.
pub record Exclusive (s : Writers) : Type 0 where
  pub below : s.seqnum < 4_294_967_296
  pub holds : (w b : ℕ) → s.at_work w ≡ some b → (b ≡ s.seqnum) × (is_locked s.seqnum ≡ true)
  pub alone : (v w b c : ℕ) → s.at_work v ≡ some b → s.at_work w ≡ some c → v ≡ w
  pub held : is_locked s.seqnum ≡ true → (w : ℕ) × (s.at_work w ≡ some s.seqnum)

no_writers-Exclusive : Exclusive no_writers
no_writers-Exclusive = record {
  below = omega arith;
  holds = λ w b e. cc;
  alone = λ v w b c e d. cc;
  held = λ h. ground arith;
}

-- A step keeps the writers apart, and changes the word by one or not at all.
pub record Stepped (s s' : Writers) : Type 0 where
  pub exclusive : Exclusive s'
  pub moved : (s'.seqnum ≡ s.seqnum) ⊎ (s'.seqnum ≡ u32 (s.seqnum + 1))

begun :
    (w : ℕ) (s : Writers)
    → Exclusive s
    → is_locked s.seqnum ≡ false
    → Stepped s (record {
      seqnum = u32 (s.seqnum + 1);
      at_work = update s.at_work w (some (u32 (s.seqnum + 1)));
    })
begun w s x free =
    let odd : is_locked (u32 (s.seqnum + 1)) ≡ true = ground arith in
    let nobody : ((v b : ℕ) → s.at_work v ≡ some b → ⊥) =
      λ v b e. let (_, l) = x.holds v b e in cc in
    record {
      exclusive = record {
        below = omega arith;
        holds = λ v b e. elim (Bool-cases (w == v)) [
          | inl same ↦ (ground (arith, e, same), odd)
          | inr other ↦ absurd (nobody v b (ground (arith, e, other)))
        ];
        alone = λ u v b c e d. elim (Bool-cases (w == u)) [
          | inl p ↦ elim (Bool-cases (w == v)) [
            | inl q ↦ ground (arith, p, q)
            | inr q ↦ absurd (nobody v c (ground (arith, d, q)))
          ]
          | inr p ↦ absurd (nobody u b (ground (arith, e, p)))
        ];
        held = λ l. (w, ground arith);
      };
      moved = inr refl;
    }

ended :
    (w b : ℕ) (s : Writers)
    → Exclusive s
    → s.at_work w ≡ some b
    → Stepped s (record { seqnum = u32 (b + 1); at_work = update s.at_work w none })
ended w b s x e =
    let (same, l) = x.holds w b e in
    let even : is_locked (u32 (b + 1)) ≡ false = ground (arith, same, l) in
    let gone : ((v c : ℕ) → update s.at_work w none v ≡ some c → ⊥) = λ v c d.
      elim (Bool-cases (w == v)) [
        | inl p ↦ ground (arith, d, p)
        | inr p ↦ let h = x.alone w v b c e (ground (arith, d, p)) in ground (arith, p, h)
      ] in
    record {
      exclusive = record {
        below = omega arith;
        holds = λ v c d. absurd (gone v c d);
        alone = λ u v c d p q. absurd (gone u c p);
        held = λ h. absurd (ground (arith, even, h));
      };
      moved = inr (rw same refl);
    }

tried-Stepped :
    (w : ℕ) (s : Writers) → Exclusive s → Stepped s (tried w s (try_write_begin s.seqnum))
unfolding try_write_begin
tried-Stepped w s x = elim (Bool-cases (is_locked s.seqnum)) [
  | inl locked ↦
      let busy : try_write_begin s.seqnum ≡ ((false, u32 (s.seqnum + 1)), s.seqnum) =
        rw (locked, try_write_begin) refl in
      rw busy (record { exclusive = x; moved = inl refl })
  | inr free ↦
      let won : try_write_begin s.seqnum ≡ ((true, u32 (s.seqnum + 1)), u32 (s.seqnum + 1)) =
        rw (free, try_write_begin) refl in
      rw won (begun w s x free)
]

writer_step-Stepped : (e : WriterStep) (s : Writers) → Exclusive s → Stepped s (writer_step e s)
unfolding writer_step write_end
writer_step-Stepped (WriterStep.tries w) s x = elim (Option-cases (s.at_work w)) [
  | inl idle ↦ rw (idle, writer_step) (tried-Stepped w s x)
  | inr (b, e) ↦ rw (e, writer_step) (record { exclusive = x; moved = inl refl })
]
writer_step-Stepped (WriterStep.ends w) s x = elim (Option-cases (s.at_work w)) [
  | inl idle ↦ rw (idle, writer_step) (record { exclusive = x; moved = inl refl })
  | inr (b, e) ↦ rw (e, writer_step) (ended w b s x e)
]

writer_steps-Exclusive :
    (es : List WriterStep) (s : Writers) → Exclusive s → Exclusive (writer_steps es s)
unfolding writer_steps
writer_steps-Exclusive [] s x = x
writer_steps-Exclusive (e ∷ es) s x =
    writer_steps-Exclusive es (writer_step e s) (writer_step-Stepped e s x).exclusive

writer_steps-writes :
    (es : List WriterStep) (s : Writers)
    → Exclusive s
    → ((writer_steps es s).seqnum ≡ u32 (s.seqnum + writes es s)) × (writes es s ≤ length es)
unfolding writer_steps writes
writer_steps-writes [] s x = (let b = x.below in omega arith, omega arith)
writer_steps-writes (e ∷ es) s x =
    let st = writer_step-Stepped e s x in
    let m = st.moved in
    let (a, c) = writer_steps-writes es (writer_step e s) st.exclusive in
    elim (Bool-cases ((writer_step e s).seqnum == s.seqnum)) [
      | inl same ↦ rw same (ground (arith, a, same), omega (arith, c))
      | inr other ↦ rw other (
        elim m [ inl p ↦ ground (arith, other, p) | inr p ↦ a ∙ omega (arith, p) ],
        omega (arith, c),
      )
    ]

-- From a new sequence counter and any steps of any writers on (each begins by try_write_begin,
-- which may fail, and ends by write_end with the number it got), a reader that takes the number
-- at read_begin, while fewer than 2^32 further steps of the writers happen before read_end, is
-- told by read_end that its read is consistent exactly if no writer was at work at read_begin
-- and none of the further steps changed the counter.
pub read_end_iff :
    (before during : List WriterStep)
    → length during < 4_294_967_296
    → let s = writer_steps before no_writers in
      (read_end (read_begin s.seqnum) (writer_steps during s).seqnum ≡ true)
      ↔ (((w : ℕ) → s.at_work w ≡ none) × (writes during s ≡ 0))
unfolding read_end
read_end_iff before during h =
    let s = writer_steps before no_writers in
    let x = writer_steps-Exclusive before no_writers no_writers-Exclusive in
    let (e, k) = writer_steps-writes during s x in
    let b = x.below in
    (
      (λ ok.
          let free : is_locked s.seqnum ≡ false = ground (arith, ok) in
          let same : (s.seqnum == (writer_steps during s).seqnum) ≡ true = ground (arith, ok) in
          (
            λ w. elim (Option-cases (s.at_work w)) [
              | inl idle ↦ idle
              | inr (c, p) ↦ absurd (let (_, l) = x.holds w c p in cc)
            ],
            ground (arith, e, same),
          )),
      (λ (quiet, still). elim (Bool-cases (is_locked s.seqnum)) [
        | inl l ↦ absurd (let (w, p) = x.held l in let q = quiet w in cc)
        | inr free ↦ rw (free, e, still) (ground arith)
      ]),
    )
