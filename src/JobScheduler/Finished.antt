-- ===== src/JobScheduler/Finished.antt =====
-- `getJob` gives up only when there is nothing left to do.
use ps4o.Base.{ℕ, ◌<◌, ◌≡◌, refl, ap, inl, inr, some, [], arith, get_elem?, tally-ge, tally_mono}
use ps4o.Scheduler.{size}
use ps4o.JobScheduler.{
  ConcurrentQueue, Phase, busy, offering, asking, looping, looking, stirring, awake, failed,
  finished, Worker, System, Reachable,
}
use ps4o.JobScheduler.Invariant.{
  working, active, has_finished, left_over, threads, working-le-active, Reachable-IsConsistent,
}

left_over-working : (p : Phase) (n : ℕ) → working p ≡ 0 → left_over p n ≡ n
left_over-working busy n h = absurd (omega (arith, h))
left_over-working offering n h = absurd (omega (arith, h))
left_over-working asking n h = refl
left_over-working looping n h = refl
left_over-working looking n h = refl
left_over-working stirring n h = refl
left_over-working awake n h = refl
left_over-working failed n h = refl
left_over-working finished n h = refl

module _ {ℓ} {Job : Type ℓ} {Q : Type ℓ} (cq : ConcurrentQueue Job Q) where
  -- In every reachable state of any number of threads on a first-in-first-out queue: once `getJob` has
  -- returned false in one of them, the shared queue is empty, no thread is at work, and the queue of
  -- every thread is empty.
  pub finished_lem :
      (n : ℕ) (s : System Job Q) (i : ℕ) (w : Worker Job)
      → Reachable cq n s
      → get_elem? s.workers i ≡ some w
      → w.phase ≡ finished
      → (cq.jobs s.glob ≡ [])
        × ((k : ℕ) (v : Worker Job)
            → get_elem? s.workers k ≡ some v
            → (working v.phase ≡ 0) × (size v.queue ≡ 0))
  finished_lem n s i w r h p =
      let o = Reachable-IsConsistent cq n r in
      let some_finished : 0 < threads has_finished s.workers = omega (
        arith,
        tally-ge (λ (x : Worker Job). has_finished x.phase) s.workers i w h,
        ap has_finished p,
      ) in
      let none_works : threads working s.workers ≡ 0 = elim o.ending [
        | inl none_finished ↦ absurd (omega arith)
        | inr none_active ↦ omega (
          arith,
          tally_mono (λ (x : Worker Job). working x.phase) (λ (x : Worker Job). active x.phase)
              s.workers (λ x. working-le-active x.phase),
        )
      ] in
      (
        elim o.supply [ inl pos ↦ absurd (omega arith) | inr e ↦ e ],
        λ k v g.
            let rests : working v.phase ≡ 0 =
              omega (arith, tally-ge (λ (x : Worker Job). working x.phase) s.workers k v g) in
            (
              rests,
              omega (
                arith,
                left_over-working v.phase (size v.queue) rests,
                tally-ge (λ (x : Worker Job). left_over x.phase (size x.queue)) s.workers k v g,
                o.queues,
              ),
            ),
      )
