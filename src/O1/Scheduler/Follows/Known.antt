-- ===== src/O1/Scheduler/Follows/Known.antt =====
-- How the task records of an O1Scheduler (schedulers/o1) keep following the kernel's threads when
-- one of them changes.
use ghost_userspace_o.Base.{
  ℕ, ◌≡◌, ◌≢◌, refl, subst, ◌∙◌, inl, inr, Option, none, some, arith, ◌==◌, ==_iff, Bool-cases,
  Option-cases, Yields, Yields-check, ltb,
}
use ghost_userspace_o.Threads.{Phase, Threads}
use ghost_userspace_o.ArrList.Links.{update_miss}
use ghost_userspace_o.O1.Task.{O1Task, O1TaskState}
use ghost_userspace_o.O1.Scheduler.{O1Scheduler}
use ghost_userspace_o.O1.Scheduler.Handlers.{advance}
use ghost_userspace_o.O1.Scheduler.Invariant.Stores.{update_hit}
use ghost_userspace_o.O1.Scheduler.Follows.{
  state_in, Assigned, Knows, Follows, FollowsAll, Turned, Entered,
}

-- Thread by thread.
pub FollowsAll-at :
    (w w' : Threads) (f f' : ℕ → Option O1Task) (g : ℕ)
    → FollowsAll w f
    → Follows (w' g) (f' g)
    → ((h : ℕ) → g ≢ h → w' h ≡ w h)
    → ((h : ℕ) → g ≢ h → f' h ≡ f h)
    → FollowsAll w' f'
FollowsAll-at w w' f f' g all here others only h = elim (Bool-cases (g == h)) [
  | inl e ↦ subst (λ i. Follows (w' i) (f' i)) ((==_iff g h).0 e) here
  | inr e ↦ let ne : g ≢ h = λ q. ground arith in rw (others h ne, only h ne) (all h)
]

pub Entered-Follows :
    (w w' : Threads) (f f' : ℕ → Option O1Task) (g : ℕ) (phase : Phase) (seqnum : ℕ) (t : O1Task)
    → FollowsAll w f
    → w' g ≡ some (record { phase = phase; sent = seqnum })
    → ((h : ℕ) → g ≢ h → w' h ≡ w h)
    → Assigned phase t
    → Entered g (state_in phase) seqnum t f f'
    → FollowsAll w' f'
Entered-Follows w w' f f' g phase seqnum t all now others home e =
    FollowsAll-at w w' f f' g all
      (rw (now, e.found)
        (record { state = e.in_state; numbered = e.numbered; assigned = keeps phase home }))
      others e.only
  where
    keeps : (phase : Phase) → Assigned phase t → Assigned phase e.task
    keeps Phase.parked h = h
    keeps Phase.blocked h = e.keeps_cpu h
    keeps Phase.ready h = h
    keeps Phase.running h = h

-- The record of a task changes in nothing that the kernel knows of.
pub Same-Follows :
    (w : Threads) (f f' : ℕ → Option O1Task) (g : ℕ) (t : O1Task)
    → FollowsAll w f
    → f g ≡ some t
    → Turned g t.run_state t f f'
    → FollowsAll w f'
Same-Follows w f f' g t all found u = elim (Option-cases (w g)) [
  | inl missing ↦ absurd (
      let k : Follows none (some t) =
        subst (λ o. Follows o (some t)) missing (subst (Follows (w g)) found (all g)) in
      cc)
  | inr (th, now) ↦
      let k : Knows th.phase th.sent t =
        subst (λ o. Follows o (some t)) now (subst (Follows (w g)) found (all g)) in
      Entered-Follows w w f f' g th.phase th.sent t all now (λ h ne. refl) k.assigned
        (record {
          task = u.task;
          found = u.found;
          in_state = u.in_state ∙ k.state;
          numbered = u.same_seqnum ∙ k.numbered;
          keeps_cpu = u.keeps_cpu;
          only = u.only;
        })
]

-- Task::Advance after a handler.
pub advance-Entered :
    (g seqnum : ℕ) (state : O1TaskState) (t : O1Task) (f : ℕ → Option O1Task) (s : O1Scheduler)
    → Turned g state t f s.tasks
    → Yields (advance g seqnum s) (λ s'. Entered g state seqnum t f s'.tasks)
unfolding advance
advance-Entered g seqnum state t f s u =
    let t' : O1Task = record u.task { seqnum = seqnum } in
    rw (u.found) (
      Yields-check (ltb u.task.seqnum seqnum) _ _ (λ _. record {
        task = t';
        found = update_hit s.tasks g (some t');
        in_state = u.in_state;
        numbered = refl;
        keeps_cpu = u.keeps_cpu;
        only = λ h ne. update_miss s.tasks g h (some t') ne ∙ u.only h ne;
      }))
