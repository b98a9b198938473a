-- ===== src/Alerts/DeadLetters.antt =====
-- How the attempts of an alert delivery job end.
use feedpulse.Base.{
  ℕ, suc, ◌+◌, ◌<◌, ◌≡◌, refl, sym, ap, ◌∙◌, String, inl, inr, ◌⊎◌, Bool, true, false, some, List,
  [], ◌∷◌, ◌++◌, Bool-cases, Result-cases, arith, leb, length, or_else, subst, ok, err, Exception,
  if◌then◌else◌, message,
}
use mathlib.Core.Bool.{false≢true}
use feedpulse.Alerts.Row.{AlertRow, DeliveryStatus}
use feedpulse.Alerts.Marks.{find_by_id_for_worker, failure_row, mark_delivery_failure}
use feedpulse.Alerts.Notifier.{Env}
use feedpulse.Alerts.Delivery.{World, Progress, nonempty}
use feedpulse.Alerts.Process.{
  Input, conclude, attempts, nothing_to_do, process_alert, process_alert_delivery,
}
use feedpulse.Alerts.Outcome.{is_err, conclude-is_err}
use feedpulse.Alerts.Rows.{find-by_id}
use feedpulse.Alerts.Monotone.{attempts-Follows, process_alert_delivery-Follows}
use feedpulse.Alerts.Worker.{
  AlertDeliveryJob, DeadLetterEntry, JobWorld, classify_attempt, handle_job_failure, input_of,
  failed_job, run_job, continued, alert_delivery_queue_name,
}

-- The alert that a failed job leaves is failed, or retrying if a retry follows.
conclude-status :
    (env : Env) (input : Input) (p : Progress) {q : AlertRow}
    → find_by_id_for_worker input.alert_id p.world.alerts ≡ some q
    → is_err (conclude env input p).1 ≡ true
    → (s : AlertRow) × (find_by_id_for_worker input.alert_id (conclude env input p).0.alerts
        ≡ some s)
      × (s.delivery_status
          ≡ (if input.will_retry then DeliveryStatus.retrying else DeliveryStatus.failed))
unfolding conclude mark_delivery_failure failure_row
conclude-status env input p found failed = elim (Bool-cases (nonempty p.channel_errors)) [
  | inl a ↦ rw a (_, find-by_id input.alert_id _ (λ r. refl) p.world.alerts found, refl)
  | inr a ↦ absurd (false≢true (sym a ∙ sym (conclude-is_err env input p) ∙ failed))
]

process-status :
    (env : Env) (input : Input) (w : World) {r : AlertRow}
    → find_by_id_for_worker input.alert_id w.alerts ≡ some r
    → is_err (process_alert_delivery env input w).1 ≡ true
    → (s : AlertRow) × (find_by_id_for_worker input.alert_id
          (process_alert_delivery env input w).0.alerts
        ≡ some s)
      × (s.delivery_status
          ≡ (if input.will_retry then DeliveryStatus.retrying else DeliveryStatus.failed))
unfolding process_alert_delivery process_alert
process-status env input w {r} found failed = elim (Bool-cases (nothing_to_do env r)) [
  | inl e ↦ absurd (false≢true (rw (found, e) at failed))
  | inr e ↦
      let (q, there, v) = attempts-Follows env r w input.alert_id r found in
      rw (found, e) (conclude-status env input (attempts env r w) there (rw (found, e) at failed))
]

-- The dead letters that a job which failed for good leaves: exactly one more, for the job and with
-- every attempt counted, or none if it cannot be written.
abbrev pub Lettered : Bool → AlertDeliveryJob → List DeadLetterEntry → List DeadLetterEntry → Type 0
Lettered true job before after = after ≡ before
Lettered false job before after =
    (entry : DeadLetterEntry) × (after ≡ before ++ entry ∷ [])
    × (entry.queue ≡ alert_delivery_queue_name)
    × (entry.job_id ≡ job.id)
    × (entry.attempts ≡ or_else job.attempts 1)

-- The dead letters after the failure of attempt `made + 1`.
letters-final :
    (write_fails : Bool) (job : AlertDeliveryJob) (made : ℕ) (error : String)
    (letters : List DeadLetterEntry)
    → made + 1 ≡ or_else job.attempts 1
    → Lettered write_fails job letters (
        handle_job_failure write_fails alert_delivery_queue_name
          (some (failed_job job made))
          error
          letters)
unfolding handle_job_failure classify_attempt
letters-final true job made error letters last =
    let reached : leb (or_else job.attempts 1) (made + 1) ≡ true = ground (arith, last) in
    rw reached refl
letters-final false job made error letters last =
    let reached : leb (or_else job.attempts 1) (made + 1) ≡ true = ground (arith, last) in
    let entry : DeadLetterEntry = record {
      queue = alert_delivery_queue_name;
      job_id = job.id;
      error = error;
      attempts = made + 1;
    } in
    (entry, rw reached refl, refl, refl, last)

letters-retryable :
    (write_fails : Bool) (job : AlertDeliveryJob) (made : ℕ) (error : String)
    (letters : List DeadLetterEntry)
    → made + 1 < or_else job.attempts 1
    → handle_job_failure write_fails alert_delivery_queue_name
        (some (failed_job job made))
        error
        letters
      ≡ letters
unfolding handle_job_failure classify_attempt
letters-retryable write_fails job made error letters more =
    let early : leb (or_else job.attempts 1) (made + 1) ≡ false = ground (arith, more) in
    rw early refl

abbrev after_attempt : AlertDeliveryJob → ℕ → Env → JobWorld → World
after_attempt job made env s = (process_alert_delivery env (input_of job made) s.world).0

-- The state that a failed attempt leaves to the next one.
abbrev after_failure : Bool → AlertDeliveryJob → ℕ → Env → JobWorld → Exception → JobWorld
after_failure write_fails job made env s x = record {
  world = after_attempt job made env s;
  dead_letters =
      handle_job_failure write_fails alert_delivery_queue_name (some (failed_job job made))
        (message x) s.dead_letters;
}

module _ (write_fails : Bool) (job : AlertDeliveryJob) (made : ℕ) (env : Env) (envs : List Env)
    (s : JobWorld) where
  run_job-ok :
      (process_alert_delivery env (input_of job made) s.world).1 ≡ ok tt
      → run_job write_fails job made (env ∷ envs) s
        ≡ (record s { world = after_attempt job made env s }, true)
  unfolding run_job
  run_job-ok e =
      ap
        (continued s (after_attempt job made env s) (λ x.
          run_job write_fails job (made + 1) envs (after_failure write_fails job made env s x)))
        e

  run_job-err :
      (x : Exception)
      → (process_alert_delivery env (input_of job made) s.world).1 ≡ err x
      → run_job write_fails job made (env ∷ envs) s
        ≡ run_job write_fails job (made + 1) envs (after_failure write_fails job made env s x)
  unfolding run_job
  run_job-err x e =
      ap
        (continued s (after_attempt job made env s) (λ x.
          run_job write_fails job (made + 1) envs (after_failure write_fails job made env s x)))
        e

run_job-end :
    (write_fails : Bool) (job : AlertDeliveryJob) (made : ℕ) (s : JobWorld)
    → run_job write_fails job made [] s ≡ (s, false)
unfolding run_job
run_job-end write_fails job made s = refl

-- How the attempts on `s` end: one succeeded and no dead letter is written; or none did, and the
-- alert, if there is one, is left as failed.
abbrev pub IsSettled : Bool → AlertDeliveryJob → JobWorld → JobWorld × Bool → Type 0
IsSettled write_fails job s t =
    ((t.1 ≡ true) × (t.0.dead_letters ≡ s.dead_letters))
    ⊎ ((t.1 ≡ false)
        × Lettered write_fails job s.dead_letters t.0.dead_letters
        × ((r : AlertRow)
            → find_by_id_for_worker job.alert_id s.world.alerts ≡ some r
            → (q : AlertRow) × (find_by_id_for_worker job.alert_id t.0.world.alerts ≡ some q)
              × (q.delivery_status ≡ DeliveryStatus.failed)))

-- The alert after the last attempt.
last-status :
    (job : AlertDeliveryJob) (made : ℕ) (env : Env) (s : JobWorld) (x : Exception) {r : AlertRow}
    → made + 1 ≡ or_else job.attempts 1
    → (process_alert_delivery env (input_of job made) s.world).1 ≡ err x
    → find_by_id_for_worker job.alert_id s.world.alerts ≡ some r
    → (q : AlertRow) × (find_by_id_for_worker job.alert_id (after_attempt job made env s).alerts
        ≡ some q)
      × (q.delivery_status ≡ DeliveryStatus.failed)
unfolding input_of
last-status job made env s x last e found =
    let (q, there, status) = process-status env (input_of job made) s.world found (ap is_err e) in
    let over : (input_of job made).will_retry ≡ false = ground (arith, last) in
    (q, there, status ∙ ap (λ b. if b then DeliveryStatus.retrying else DeliveryStatus.failed) over)

attempt-Follows :
    (job : AlertDeliveryJob) (made : ℕ) (env : Env) (s : JobWorld) (r : AlertRow)
    → find_by_id_for_worker job.alert_id s.world.alerts ≡ some r
    → (q : AlertRow) × (find_by_id_for_worker job.alert_id (after_attempt job made env s).alerts
        ≡ some q)
attempt-Follows job made env s r found =
    let (q, there, v) =
      process_alert_delivery-Follows env (input_of job made) s.world job.alert_id r found in
    (q, there)

-- From a failed attempt that is not the last.
carry_over :
    (write_fails : Bool) (job : AlertDeliveryJob) (made : ℕ) (env : Env) (s : JobWorld)
    (x : Exception) (t : JobWorld × Bool)
    → made + 1 < or_else job.attempts 1
    → IsSettled write_fails job (after_failure write_fails job made env s x) t
    → IsSettled write_fails job s t
carry_over write_fails job made env s x t more settled =
    let kept = letters-retryable write_fails job made (message x) s.dead_letters more in
    elim settled [
      | inl (a, b) ↦ inl (a, b ∙ kept)
      | inr (a, b, c) ↦ inr (
        a,
        subst (λ l. Lettered write_fails job l t.0.dead_letters) kept b,
        λ r found. let (q, there) = attempt-Follows job made env s r found in c q there,
      )
    ]

-- A job that runs until an attempt succeeds or all are made, while the database answers every
-- statement on the alerts: either an attempt succeeds and no dead letter is written; or the
-- alert, if there is one, is left as failed, and exactly one dead letter is written, which names
-- the queue and the job and counts every attempt, or none if the dead letters cannot be written.
pub job_ends :
    (write_fails : Bool) (job : AlertDeliveryJob) (made : ℕ) (env : Env) (envs : List Env)
    (s : JobWorld)
    → made + suc (length envs) ≡ or_else job.attempts 1
    → IsSettled write_fails job s (run_job write_fails job made (env ∷ envs) s)
job_ends write_fails job made env [] s total =
    elim (Result-cases (process_alert_delivery env (input_of job made) s.world).1) [
      | inl (a, e) ↦
          subst (IsSettled write_fails job s) (sym (run_job-ok write_fails job made env [] s e))
            (inl (refl, refl))
      | inr (x, e) ↦
          subst (IsSettled write_fails job s)
            (sym (
              run_job-err write_fails job made env [] s x e
              ∙ run_job-end write_fails job (made + 1) _))
            (inr (
              refl,
              letters-final write_fails job made (message x) s.dead_letters (omega (arith, total)),
              λ r found. last-status job made env s x (omega (arith, total)) e found,
            ))
    ]
job_ends write_fails job made env (env' ∷ envs) s total =
    elim (Result-cases (process_alert_delivery env (input_of job made) s.world).1) [
      | inl (a, e) ↦
          subst (IsSettled write_fails job s)
            (sym (run_job-ok write_fails job made env (env' ∷ envs) s e)) (inl (refl, refl))
      | inr (x, e) ↦
          let next = after_failure write_fails job made env s x in
          subst (IsSettled write_fails job s)
            (sym (run_job-err write_fails job made env (env' ∷ envs) s x e))
            (carry_over write_fails job made env s x
              (run_job write_fails job (made + 1) (env' ∷ envs) next) (omega (arith, total))
              (job_ends write_fails job (made + 1) env' envs next (omega (arith, total))))
    ]
