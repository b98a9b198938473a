-- ===== src/Ingestion/Enqueues.antt =====
-- What the enqueues of a batch of feeds leave in the queue, whichever of them throw.
use feedpulse.Base.{
  ℕ, ◌+◌, ◌≡◌, ◌≢◌, refl, sym, ap, ◌∙◌, subst, inl, inr, ◌⊎◌, Bool, true, false, List, [], ◌∷◌,
  ◌++◌, length-append, Bool-cases, arith, All, All-append, All-imp, Memᴰ, mem-append,
  mem-append_left, mem-append_right, length, any-mem, Result, ok, err, if◌then◌else◌, ==_iff, ◌==◌,
  &&-eq-true,
}
use mathlib.Core.Bool.{false≢true}
use mathlib.Core.List.{append_assoc, append-nil}
use feedpulse.Feeds.Row.{Feed}
use feedpulse.Ingestion.Scheduling.{
  JobId, feed_job, manual_job, live, QueueFault, answers, get_throws, add_throws, queue_error,
  counted, QueuedJob, same_job_id, build_job_id, get_job, add, enqueue, scheduled_job, enqueue_all,
}

-- A live job of the scheduler for a feed, at its first attempt.
abbrev pub IsFresh : ℕ → QueuedJob → Type 0
IsFresh now j =
    (feed : Feed) × (j
      ≡ record { job_id = feed_job feed.id; data_of = scheduled_job now feed; state = live })

-- A job under the feed's id was held before, or is among the new ones.
abbrev pub IsQueued : List QueuedJob → List QueuedJob → Feed → Type 0
IsQueued held new f =
    ((j : QueuedJob) × Memᴰ j held × (j.job_id ≡ feed_job f.id))
    ⊎ ((j : QueuedJob) × Memᴰ j new × (j.job_id ≡ feed_job f.id))

-- The queue throws at the feed's look-up or at the addition of its job.
abbrev pub MayThrow : (ℕ → QueueFault) → Feed → Type 0
MayThrow faults f = faults f.id ≢ answers

-- What an enqueue answers: it throws, or one of a new job and a duplicate is counted.
abbrev IsAnswered : (ℕ → QueueFault) → Feed → List QueuedJob → List QueuedJob → Result Bool → Type 0
IsAnswered faults f held new (err e) = (e ≡ queue_error) × MayThrow faults f
IsAnswered faults f held new (ok deduplicated) =
    IsQueued held new f × (length new + (if deduplicated then 1 else 0) ≡ 1)

-- What the enqueues answer: one throws, or each feed has a job and is counted once.
abbrev pub IsCounted :
    (ℕ → QueueFault) → List Feed → List QueuedJob → List QueuedJob → Result ℕ → Type 0
IsCounted faults feeds held new (err e) =
    (e ≡ queue_error) × ((f : Feed) × Memᴰ f feeds × MayThrow faults f)
IsCounted faults feeds held new (ok deduplicated) =
    All (IsQueued held new) feeds × (length new + deduplicated ≡ length feeds)

record Enqueued (faults : ℕ → QueueFault) (now : ℕ) (f : Feed) (jobs : List QueuedJob)
    (t : List QueuedJob × Result Bool) : Type 0 where
  new : List QueuedJob
  jobs_eq : t.0 ≡ jobs ++ new
  fresh : All (IsFresh now) new
  answered : IsAnswered faults f jobs new t.1

pub record EnqueuedAll (faults : ℕ → QueueFault) (now : ℕ) (feeds : List Feed)
    (jobs : List QueuedJob) (t : List QueuedJob × Result ℕ) : Type 0 where
  pub new : List QueuedJob
  pub jobs_eq : t.0 ≡ jobs ++ new
  pub fresh : All (IsFresh now) new
  pub placed : All (λ f. IsQueued jobs new f ⊎ MayThrow faults f) feeds
  pub counts : IsCounted faults feeds jobs new t.1

same_job_id-eq : (a b : JobId) → same_job_id a b ≡ true → a ≡ b
same_job_id-eq (feed_job i) (feed_job j) h = ap feed_job ((==_iff i j).0 h)
same_job_id-eq (feed_job i) (manual_job j s) h = absurd (false≢true h)
same_job_id-eq (manual_job i t) (feed_job j) h = absurd (false≢true h)
same_job_id-eq (manual_job i t) (manual_job j s) h =
    let (e, f) = &&-eq-true (i == j) (t == s) h in
    ap (λ n. manual_job n t) ((==_iff i j).0 e) ∙ ap (manual_job j) ((==_iff t s).0 f)

get_job-mem :
    (id : JobId) (jobs : List QueuedJob)
    → get_job id jobs ≡ true
    → (j : QueuedJob) × Memᴰ j jobs × (j.job_id ≡ id)
unfolding get_job
get_job-mem id jobs h =
    let (j, m, e) = any-mem (λ j. same_job_id j.job_id id) jobs h in
    (j, m, same_job_id-eq j.job_id id e)

duplicate :
    (faults : ℕ → QueueFault) (now : ℕ) (f : Feed) (jobs : List QueuedJob)
    → get_job (feed_job f.id) jobs ≡ true
    → Enqueued faults now f jobs (jobs, ok true)
duplicate faults now f jobs h = record {
  new = [];
  jobs_eq = sym (append-nil jobs);
  fresh = tt;
  answered = (inl (get_job-mem (feed_job f.id) jobs h), refl);
}

thrown :
    (faults : ℕ → QueueFault) (now : ℕ) (f : Feed) (jobs : List QueuedJob)
    → MayThrow faults f
    → Enqueued faults now f jobs (jobs, err queue_error)
thrown faults now f jobs h = record {
  new = [];
  jobs_eq = sym (append-nil jobs);
  fresh = tt;
  answered = (refl, h);
}

added-new :
    (faults : ℕ → QueueFault) (now : ℕ) (f : Feed) (jobs : List QueuedJob)
    → get_job (feed_job f.id) jobs ≡ false
    → Enqueued faults now f jobs (add (feed_job f.id) (scheduled_job now f) jobs, ok false)
unfolding add
added-new faults now f jobs h =
    let job : QueuedJob = record {
      job_id = feed_job f.id;
      data_of = scheduled_job now f;
      state = live;
    } in
    record {
      new = job ∷ [];
      jobs_eq = rw h refl;
      fresh = ((f, refl), tt);
      answered = (inr (job, Memᴰ.head refl, refl), refl);
    }

-- One enqueue for a feed, however the queue behaves.
enqueue_lem :
    (faults : ℕ → QueueFault) (now : ℕ) (f : Feed) (jobs : List QueuedJob) (fault : QueueFault)
    → faults f.id ≡ fault
    → Enqueued faults now f jobs (enqueue fault now (scheduled_job now f) jobs)
unfolding enqueue build_job_id
enqueue_lem faults now f jobs get_throws e = thrown faults now f jobs (λ h. cc)
enqueue_lem faults now f jobs answers e = elim (Bool-cases (get_job (feed_job f.id) jobs)) [
  | inl h ↦ rw h (duplicate faults now f jobs h)
  | inr h ↦ rw h (added-new faults now f jobs h)
]
enqueue_lem faults now f jobs add_throws e = elim (Bool-cases (get_job (feed_job f.id) jobs)) [
  | inl h ↦ rw h (duplicate faults now f jobs h)
  | inr h ↦ rw h (thrown faults now f jobs (λ k. cc))
]

module _ (jobs n m : List QueuedJob) where
  IsQueued-first : (f : Feed) → IsQueued jobs n f → IsQueued jobs (n ++ m) f
  IsQueued-first f (inl held) = inl held
  IsQueued-first f (inr (j, k, e)) = inr (j, mem-append_left n m k, e)

  IsQueued-later : (f : Feed) → IsQueued (jobs ++ n) m f → IsQueued jobs (n ++ m) f
  IsQueued-later f (inr (j, k, e)) = inr (j, mem-append_right n m k, e)
  IsQueued-later f (inl (j, k, e)) = elim (mem-append jobs n k) [
    | inl l ↦ inl (j, l, e)
    | inr r ↦ inr (j, mem-append_left n m r, e)
  ]

  module _ (faults : ℕ → QueueFault) (f : Feed) (feeds : List Feed) where
    placed-first :
        (a : Result Bool)
        → IsAnswered faults f jobs n a
        → IsQueued jobs (n ++ m) f ⊎ MayThrow faults f
    placed-first (ok d) (q, _) = inl (IsQueued-first f q)
    placed-first (err e) (_, h) = inr h

    placed-later :
        (g : Feed)
        → IsQueued (jobs ++ n) m g ⊎ MayThrow faults g
        → IsQueued jobs (n ++ m) g ⊎ MayThrow faults g
    placed-later g (inl q) = inl (IsQueued-later g q)
    placed-later g (inr h) = inr h

    counted_lem :
        (a : Result Bool) (b : Result ℕ)
        → IsAnswered faults f jobs n a
        → IsCounted faults feeds (jobs ++ n) m b
        → IsCounted faults (f ∷ feeds) jobs (n ++ m) (counted a b)
    counted_lem (err e) b (same, h) c = (same, (f, Memᴰ.head refl, h))
    counted_lem (ok d) (err e) q (same, (g, k, h)) = (same, (g, Memᴰ.tail k, h))
    counted_lem (ok d) (ok k) (q, one) (qs, more) = (
      (IsQueued-first f q, All-imp (IsQueued (jobs ++ n) m) _ IsQueued-later feeds qs),
      ground (arith, one, more, length-append n m),
    )

pub enqueue_all_lem :
    (faults : ℕ → QueueFault) (now : ℕ) (feeds : List Feed) (jobs : List QueuedJob)
    → EnqueuedAll faults now feeds jobs (enqueue_all faults now feeds jobs)
unfolding enqueue_all
enqueue_all_lem faults now [] jobs = record {
  new = [];
  jobs_eq = sym (append-nil jobs);
  fresh = tt;
  placed = tt;
  counts = (tt, refl);
}
enqueue_all_lem faults now (f ∷ feeds) jobs =
    let one = enqueue_lem faults now f jobs (faults f.id) refl in
    let start = (enqueue (faults f.id) now (scheduled_job now f) jobs).0 in
    let rest =
      subst (λ held. EnqueuedAll faults now feeds held (enqueue_all faults now feeds start))
        one.jobs_eq (enqueue_all_lem faults now feeds start) in
    record {
      new = one.new ++ rest.new;
      jobs_eq = rest.jobs_eq ∙ append_assoc jobs one.new rest.new;
      fresh = All-append (IsFresh now) one.new rest.new one.fresh rest.fresh;
      placed = (
        placed-first jobs one.new rest.new faults f feeds _ one.answered,
        All-imp _ _ (placed-later jobs one.new rest.new faults f feeds) feeds rest.placed,
      );
      counts = counted_lem jobs one.new rest.new faults f feeds _ _ one.answered rest.counts;
    }
