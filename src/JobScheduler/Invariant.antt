-- ===== src/JobScheduler/Invariant.antt =====
-- What holds of the scheduler in every state: the count of idle threads, that a thread which is not at work
-- has no jobs, and that a shared job has a thread at work which will look for it.
use ps4o.Base.{
  ℕ, ◌+◌, ◌≤◌, ◌<◌, ◌≡◌, refl, sym, ap, ◌∙◌, true, ◌⊎◌, inl, inr, some, List, [], arith, length,
  length-store, get_elem?, store, tally, tally-store, tally-ge, tally-replicate, tally_mono,
  tally-add-le, length-replicate,
}
use ps4o.Scheduler.{PrivateQueue, size, is_empty}
use ps4o.JobScheduler.{
  ConcurrentQueue, Phase, busy, offering, asking, looping, looking, stirring, awake, failed,
  finished, Worker, System, initial_system, Step, spawn, offer, add_job, pop_local, pop_shared,
  pop_none, signal_idle, all_idle, some_busy, see_none, see_some, wake_up, pop_again,
  pop_again_none, signal_again, Reachable, start, next,
}

-- At work
abbrev pub working : Phase → ℕ
working busy = 1
working offering = 1
working asking = 0
working looping = 0
working looking = 0
working stirring = 0
working awake = 0
working failed = 0
working finished = 0

-- At work, or about to say that it is not
abbrev pub active : Phase → ℕ
active busy = 1
active offering = 1
active asking = 1
active looping = 0
active looking = 0
active stirring = 0
active awake = 0
active failed = 0
active finished = 0

-- Counted in `m_num_idle_threads`
abbrev pub counted : Phase → ℕ
counted busy = 0
counted offering = 0
counted asking = 0
counted looping = 1
counted looking = 1
counted stirring = 1
counted awake = 0
counted failed = 0
counted finished = 1

abbrev pub has_finished : Phase → ℕ
has_finished busy = 0
has_finished offering = 0
has_finished asking = 0
has_finished looping = 0
has_finished looking = 0
has_finished stirring = 0
has_finished awake = 0
has_finished failed = 0
has_finished finished = 1

-- The jobs of a thread that is not at work
abbrev pub left_over : Phase → ℕ → ℕ
left_over busy n = 0
left_over offering n = 0
left_over asking n = n
left_over looping n = n
left_over looking n = n
left_over stirring n = n
left_over awake n = n
left_over failed n = n
left_over finished n = n

pub working-le-active : (p : Phase) → working p ≤ active p
working-le-active busy = omega arith
working-le-active offering = omega arith
working-le-active p = omega arith

counted-active : (p : Phase) → counted p + active p ≤ 1
counted-active busy = omega arith
counted-active offering = omega arith
counted-active asking = omega arith
counted-active p = omega arith

module _ {ℓ} {Job : Type ℓ} where
  -- The threads whose phase is of a kind
  abbrev pub threads : (Phase → ℕ) → List (Worker Job) → ℕ
  threads k ws = tally (λ (w : Worker Job). k w.phase) ws

  abbrev pub idle_jobs : List (Worker Job) → ℕ
  idle_jobs ws = tally (λ (w : Worker Job). left_over w.phase (size w.queue)) ws

  -- How the sums change when thread `i` goes from phase `p` to phase `q`
  record Change (p q : Phase) (m n : ℕ) (a b : List (Worker Job)) : Type ℓ where
    length_same : length b ≡ length a
    kinds : (k : Phase → ℕ) → threads k b + k p ≡ threads k a + k q
    enough : (k : Phase → ℕ) → k p ≤ threads k a
    jobs : idle_jobs b + left_over p m ≡ idle_jobs a + left_over q n

  change :
      (i : ℕ) (w v : Worker Job) (p q : Phase) (a b : List (Worker Job))
      → get_elem? a i ≡ some w
      → w.phase ≡ p
      → v.phase ≡ q
      → store a i v ≡ some b
      → Change p q (size w.queue) (size v.queue) a b
  change i w v p q a b h wp vq e = record {
    length_same = length-store a b i v e;
    kinds = λ k.
        omega (arith, tally-store (λ (x : Worker Job). k x.phase) a b i w v h e, ap k wp, ap k vq);
    enough = λ k. omega (arith, tally-ge (λ (x : Worker Job). k x.phase) a i w h, ap k wp);
    jobs = omega (
      arith,
      tally-store (λ (x : Worker Job). left_over x.phase (size x.queue)) a b i w v h e,
      ap (λ r. left_over r (size w.queue)) wp,
      ap (λ r. left_over r (size v.queue)) vq,
    );
  }

module _ {ℓ} {Job : Type ℓ} {Q : Type ℓ} (cq : ConcurrentQueue Job Q) where
  open cq use {jobs, try_pop, try_pop-none, try_pop-some, jobs-new_queue}

  pub record IsConsistent (n : ℕ) (s : System Job Q) : Type ℓ where
    pub size : length s.workers ≡ n
    pub total : s.num_threads ≡ n
    pub idle : s.num_idle_threads ≡ threads counted s.workers
    pub queues : idle_jobs s.workers ≡ 0
    pub supply : (0 < threads working s.workers) ⊎ (jobs s.glob ≡ [])
    pub ending : (threads has_finished s.workers ≡ 0) ⊎ (threads active s.workers ≡ 0)

  -- A step that leaves the shared queue alone, and after which no thread has finished that had not.
  private_step :
      (n : ℕ) (s : System Job Q) (p q : Phase) (m k : ℕ) (idle : ℕ) (ws : List (Worker Job))
      → IsConsistent n s
      → Change p q m k s.workers ws
      → idle + counted p ≡ s.num_idle_threads + counted q
      → left_over q k ≤ left_over p m
      → (working p ≤ working q) ⊎ (jobs s.glob ≡ [])
      → active q ≤ active p
      → (has_finished q ≤ has_finished p) ⊎ (threads active ws ≡ 0)
      → IsConsistent n (record s { num_idle_threads = idle; workers = ws })
  private_step n s p q m k idle ws o c count no_more same less no_end = record {
    size = c.length_same ∙ o.size;
    total = o.total;
    idle = omega (arith, c.kinds counted, o.idle, c.enough counted);
    queues = omega (arith, c.jobs, o.queues);
    supply = elim o.supply [
      | inl pos ↦ elim same [ inl keep ↦ inl (omega (arith, c.kinds working)) | inr e ↦ inr e ]
      | inr e ↦ inr e
    ];
    ending = elim no_end [
      | inl keep ↦ elim o.ending [
        | inl zero_end ↦ inl (omega (arith, c.kinds has_finished))
        | inr zero_active ↦ inr (omega (arith, c.kinds active, c.enough active))
      ]
      | inr zero_active ↦ inr zero_active
    ];
  }

  -- The shared queue may change where a thread is at work.
  other_jobs :
      (n : ℕ) (s : System Job Q) (g : Q)
      → IsConsistent n s
      → 0 < threads working s.workers
      → IsConsistent n (record s { glob = g })
  other_jobs n s g o pos = record {
    size = o.size;
    total = o.total;
    idle = o.idle;
    queues = o.queues;
    supply = inl pos;
    ending = o.ending;
  }

  -- Where a job can be had from the shared queue, no thread has finished.
  not_over :
      (n : ℕ) (s : System Job Q) (j : Job) (g : Q)
      → IsConsistent n s
      → try_pop s.glob ≡ some (j, g)
      → threads has_finished s.workers ≡ 0
  not_over n s j g o e = elim o.ending [
    | inl zero_end ↦ zero_end
    | inr zero_active ↦ elim o.supply [
      | inl pos ↦ absurd (
          omega (
            arith,
            tally_mono (λ (w : Worker Job). working w.phase) (λ (w : Worker Job). active w.phase)
                s.workers (λ w. working-le-active w.phase),
          ))
      | inr none_left ↦ (let some_left = try_pop-some s.glob g j e in cc)
    ]
  ]

  empty-size : (q : PrivateQueue Job) → is_empty q ≡ true → size q ≡ 0
  unfolding is_empty
  empty-size q h = ground arith

  pub Step-IsConsistent :
      {n : ℕ} {s t : System Job Q} → IsConsistent n s → Step cq s t → IsConsistent n t
  Step-IsConsistent {n = n} {s = s} o (spawn i w j {ws = ws} h p e) =
      private_step n s busy busy _ _ s.num_idle_threads ws o
        (change i w _ busy busy s.workers ws h p p e) refl (omega arith) (inl (omega arith))
        (omega arith) (inl (omega arith))
  Step-IsConsistent {n = n} {s = s} o (offer i w {ws = ws} h p more e) =
      private_step n s busy offering _ _ s.num_idle_threads ws o
        (change i w _ busy offering s.workers ws h p refl e) refl (omega arith) (inl (omega arith))
        (omega arith) (inl (omega arith))
  Step-IsConsistent {n = n} {s = s} o (add_job i w j rest {ws = ws} h p f e) =
      let c = change i w _ offering busy s.workers ws h p refl e in
      other_jobs n (record s { workers = ws }) _
        (private_step n s offering busy _ _ s.num_idle_threads ws o c refl (omega arith)
          (inl (omega arith)) (omega arith) (inl (omega arith)))
        (omega (arith, c.kinds working))
  Step-IsConsistent {n = n} {s = s} o (pop_local i w j rest {ws = ws} h p l f e) =
      private_step n s busy busy _ _ s.num_idle_threads ws o
        (change i w _ busy busy s.workers ws h p p e) refl (omega arith) (inl (omega arith))
        (omega arith) (inl (omega arith))
  Step-IsConsistent {n = n} {s = s} o (pop_shared i w j h p l f) =
      other_jobs n s _ o (
        omega (arith, tally-ge (λ (x : Worker Job). working x.phase) s.workers i w h, ap working p))
  Step-IsConsistent {n = n} {s = s} o (pop_none i w {ws = ws} h p l f e) =
      private_step n s busy asking _ _ s.num_idle_threads ws o
        (change i w _ busy asking s.workers ws h p refl e) refl
        (omega (arith, empty-size w.queue l)) (inr (try_pop-none s.glob f)) (omega arith)
        (inl (omega arith))
  Step-IsConsistent {n = n} {s = s} o (signal_idle i w {ws = ws} h p e) =
      private_step n s asking looping _ _ _ ws o
        (change i w _ asking looping s.workers ws h p refl e) (omega arith) (omega arith)
        (inl (omega arith)) (omega arith) (inl (omega arith))
  Step-IsConsistent {n = n} {s = s} o (all_idle i w {ws = ws} h p all e) =
      let c = change i w _ looping finished s.workers ws h p refl e in
      private_step n s looping finished _ _ s.num_idle_threads ws o c refl (omega arith)
        (inl (omega arith)) (omega arith)
        (inr (
          omega (
            arith,
            c.kinds active,
            all,
            o.idle,
            o.size,
            o.total,
            tally-add-le (λ (x : Worker Job). counted x.phase) (λ (x : Worker Job). active x.phase)
                s.workers (λ x. counted-active x.phase),
          )))
  Step-IsConsistent {n = n} {s = s} o (some_busy i w {ws = ws} h p some_left e) =
      private_step n s looping looking _ _ s.num_idle_threads ws o
        (change i w _ looping looking s.workers ws h p refl e) refl (omega arith)
        (inl (omega arith)) (omega arith) (inl (omega arith))
  Step-IsConsistent {n = n} {s = s} o (see_none i w {ws = ws} h p l e) =
      private_step n s looking looping _ _ s.num_idle_threads ws o
        (change i w _ looking looping s.workers ws h p refl e) refl (omega arith)
        (inl (omega arith)) (omega arith) (inl (omega arith))
  Step-IsConsistent {n = n} {s = s} o (see_some i w {ws = ws} h p l e) =
      private_step n s looking stirring _ _ s.num_idle_threads ws o
        (change i w _ looking stirring s.workers ws h p refl e) refl (omega arith)
        (inl (omega arith)) (omega arith) (inl (omega arith))
  Step-IsConsistent {n = n} {s = s} o (wake_up i w {ws = ws} h p e) =
      let c = change i w _ stirring awake s.workers ws h p refl e in
      private_step n s stirring awake _ _ _ ws o c (omega (arith, o.idle, c.enough counted))
        (omega arith) (inl (omega arith)) (omega arith) (inl (omega arith))
  Step-IsConsistent {n = n} {s = s} o (pop_again i w j {g = g} {ws = ws} h p f e) =
      let c = change i w _ awake busy s.workers ws h p refl e in
      record {
        size = c.length_same ∙ o.size;
        total = o.total;
        idle = omega (arith, c.kinds counted, o.idle);
        queues = omega (arith, c.jobs, o.queues);
        supply = inl (omega (arith, c.kinds working));
        ending = inl (omega (arith, c.kinds has_finished, not_over n s j g o f));
      }
  Step-IsConsistent {n = n} {s = s} o (pop_again_none i w {ws = ws} h p l e) =
      private_step n s awake failed _ _ s.num_idle_threads ws o
        (change i w _ awake failed s.workers ws h p refl e) refl (omega arith) (inl (omega arith))
        (omega arith) (inl (omega arith))
  Step-IsConsistent {n = n} {s = s} o (signal_again i w {ws = ws} h p e) =
      private_step n s failed looping _ _ _ ws o
        (change i w _ failed looping s.workers ws h p refl e) (omega arith) (omega arith)
        (inl (omega arith)) (omega arith) (inl (omega arith))

  pub Reachable-IsConsistent : (n : ℕ) {s : System Job Q} → Reachable cq n s → IsConsistent n s
  unfolding initial_system
  Reachable-IsConsistent n start = record {
    size = length-replicate n _;
    total = refl;
    idle = sym (tally-replicate (λ (w : Worker Job). counted w.phase) n _ refl);
    queues = tally-replicate (λ (w : Worker Job). left_over w.phase (size w.queue)) n _ refl;
    supply = inr jobs-new_queue;
    ending = inl (tally-replicate (λ (w : Worker Job). has_finished w.phase) n _ refl);
  }
  Reachable-IsConsistent n (next r s) = Step-IsConsistent (Reachable-IsConsistent n r) s
