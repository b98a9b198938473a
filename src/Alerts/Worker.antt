-- ===== src/Alerts/Worker.antt =====
-- The alert delivery worker of modules/ingestion/worker.runner.ts: the attempts of one job, and the
-- dead letter of a job that fails for good. BullMQ runs a failed job again until it has made
-- `opts.attempts` attempts, as it documents; each attempt has surroundings of its own. Logs and
-- metrics are left out.
use feedpulse.Base.{
  ℕ, ◌+◌, String, Bool, true, false, Option, none, some, List, [], ◌∷◌, ◌++◌, leb, ltb,
  if◌then◌else◌, or_else, Result, ok, err, Exception, message,
}
use feedpulse.Alerts.Notifier.{Env}
use feedpulse.Alerts.Delivery.{World}
use feedpulse.Alerts.Process.{Input, process_alert_delivery}

-- `JobFailureFinality`: 'true', 'false' or 'unknown'.
pub data Finality : Type 0 where
  final retryable unknown : Finality

pub record AttemptBearingJob : Type 0 where
  pub id : Option String
  pub attempts_made : ℕ
  pub attempts : Option ℕ

pub record AttemptClassification : Type 0 where
  pub finality : Finality
  pub attempts_made : ℕ
  pub max_attempts : ℕ

unfoldable pub classify_attempt : Option AttemptBearingJob → AttemptClassification
classify_attempt none = record { finality = unknown; attempts_made = 0; max_attempts = 0 }
classify_attempt (some job) =
    let max_attempts = or_else job.attempts 1 in
    record {
      finality = if leb max_attempts job.attempts_made then final else retryable;
      attempts_made = job.attempts_made;
      max_attempts = max_attempts;
    }

pub record DeadLetterEntry : Type 0 where
  pub queue : String
  pub job_id : String
  pub error : String
  pub attempts : ℕ

abbrev recorded :
    Bool
    → String
    → Option AttemptBearingJob
    → String
    → List DeadLetterEntry
    → Finality
    → List DeadLetterEntry
recorded write_fails queue (some job) error letters final =
    if write_fails
    then letters
    else letters
      ++ record {
        queue = queue;
        job_id = or_else job.id "unknown";
        error = error;
        attempts = job.attempts_made;
      }
        ∷ []
recorded write_fails queue job error letters _ = letters

-- `handleJobFailure`: the dead letters after it.
unfoldable pub handle_job_failure :
    Bool → String → Option AttemptBearingJob → String → List DeadLetterEntry → List DeadLetterEntry
handle_job_failure write_fails queue job error letters =
    recorded write_fails queue job error letters (classify_attempt job).finality

abbrev pub alert_delivery_queue_name : String
alert_delivery_queue_name = "alert-delivery"

pub record AlertDeliveryJob : Type 0 where
  pub id : String
  pub alert_id : ℕ
  pub attempts : Option ℕ

-- The processor's call of the use case after `made` attempts.
unfoldable pub input_of : AlertDeliveryJob → ℕ → Input
input_of job made = record {
  alert_id = job.alert_id;
  attempt_number = made + 1;
  will_retry = ltb (made + 1) (or_else job.attempts 1);
}

pub record JobWorld : Type 0 where
  pub world : World
  pub dead_letters : List DeadLetterEntry

abbrev pub failed_job : AlertDeliveryJob → ℕ → AttemptBearingJob
failed_job job made = record { id = some job.id; attempts_made = made + 1; attempts = job.attempts }

-- What follows an attempt, by its result.
abbrev pub continued :
    JobWorld → World → (Exception → JobWorld × Bool) → Result (Unit {0}) → JobWorld × Bool
continued s w after_failure (ok _) = (record s { world = w }, true)
continued s w after_failure (err e) = after_failure e

-- The attempts from the one after `made` on, one for each of `envs`, until one succeeds: the state
-- after them, and whether one did.
unfoldable pub run_job : Bool → AlertDeliveryJob → ℕ → List Env → JobWorld → JobWorld × Bool
run_job write_fails job made [] s = (s, false)
run_job write_fails job made (env ∷ envs) s =
    let (w, r) = process_alert_delivery env (input_of job made) s.world in
    continued s w
      (λ e. run_job write_fails job (made + 1) envs (record {
        world = w;
        dead_letters =
            handle_job_failure write_fails alert_delivery_queue_name (some (failed_job job made))
              (message e) s.dead_letters;
      }))
      r
