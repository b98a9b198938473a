-- ===== src/Alerts/SweepTests.antt =====
-- Runs of the digests' sweep and of the worker's attempts, and an application of each theorem on them.
use feedpulse.Base.{ℕ, ◌≡◌, refl, true, false, Option, none, some, String, [], ◌∷◌, find, update}
use feedpulse.Base.{if◌then◌else◌, str_eq, sort_by, any, select, All}
use feedpulse.Alerts.Row.{DigestItem}
use feedpulse.Alerts.Row.{ChannelStatus}
use feedpulse.Alerts.Marks.{find_by_id_for_worker, delivered_row}
use feedpulse.Alerts.Digests.{
  DigestTables, SweepEnv, process_telegram_digests, flush_groups, flush_group, group_items,
  with_items, list_due_telegram_digest_groups, group_all, add_to_group, is_due,
  mark_telegram_digest_group_sent, mark_items_sent, mark_item_sent, converge_alerts, converge_alert,
  can_converge, has_unsent, has_sent, is_stale, reconcile_telegram_digest_delivery_status,
  reconcile_previous_sweeps, distinct,
}
use feedpulse.Alerts.Converging.{IsEarned, sweep_marks_only_flushed}
use feedpulse.Alerts.Repairs.{IsRepaired, IsConsistent, reconcile_heals}
use feedpulse.Base.{find, update}
use feedpulse.Alerts.Marks.{find_by_id_for_worker, delivered_row}
use feedpulse.Alerts.Worker.{AlertDeliveryJob, JobWorld, run_job}
use feedpulse.Alerts.DeadLetters.{IsSettled, job_ends}
use feedpulse.Alerts.Tests.{an_alert, waiting, env, world}

-- Alert 1 has a due item that is not sent; the items of alert 3 were sent before a crash.
abbrev an_item : ℕ → ℕ → String → Option ℕ → DigestItem
an_item id alert_id chat_id sent_at = record {
  id = id;
  tenant_id = "acme";
  alert_id = alert_id;
  chat_id = chat_id;
  scheduled_for = 1000;
  sent_at = sent_at;
  created_at = id;
}

abbrev tables : DigestTables
tables = record {
  alerts =
      waiting ∷ an_alert 3 ChannelStatus.pending ChannelStatus.pending ChannelStatus.pending ∷ [];
  items = an_item 1 1 "7" none ∷ an_item 2 1 "8" none ∷ an_item 3 3 "7" (some 900) ∷ [];
}

-- The chat "8" refuses.
abbrev sweep_env : SweepEnv
sweep_env = record {
  now = 5000;
  max_groups = 30;
  is_enabled = true;
  is_telegram_enabled = λ tenant. true;
  send_telegram_digest = λ g. if str_eq g.chat_id "8" then some "down" else none;
  reconcile_fails = false;
}

-- Chat "7" is flushed; alert 3 is repaired, and alert 1 still waits for the other chat.
sweep_test :
    ((process_telegram_digests sweep_env tables).processed_groups ≡ 1)
    × ((process_telegram_digests sweep_env tables).alerts_marked_delivered ≡ 1)
unfolding find_by_id_for_worker find update delivered_row process_telegram_digests flush_groups
    flush_group group_items with_items list_due_telegram_digest_groups group_all add_to_group is_due
    mark_telegram_digest_group_sent mark_items_sent mark_item_sent converge_alerts converge_alert
    can_converge has_unsent has_sent is_stale reconcile_telegram_digest_delivery_status
    reconcile_previous_sweeps distinct sort_by any select
sweep_test = (refl, refl)

sweep_marks_only_flushed_example :
    All
      (IsEarned tables.alerts (process_telegram_digests sweep_env tables).tables.items)
      (process_telegram_digests sweep_env tables).tables.alerts
sweep_marks_only_flushed_example = sweep_marks_only_flushed sweep_env tables

reconcile_heals_example :
    All (IsRepaired 5000 tables) (reconcile_telegram_digest_delivery_status 5000 tables).0.alerts
    × All
        (IsConsistent tables.items)
        (reconcile_telegram_digest_delivery_status 5000 tables).0.alerts
    × ((reconcile_telegram_digest_delivery_status 6000
          (reconcile_telegram_digest_delivery_status 5000 tables).0).1
        ≡ 0)
reconcile_heals_example = reconcile_heals 5000 6000 tables

-- Two attempts: the chat refuses the first and takes the second.
abbrev a_job : AlertDeliveryJob
a_job = record { id = "alert-1"; alert_id = 1; attempts = some 2 }

abbrev job_world : JobWorld
job_world = record { world = world; dead_letters = [] }

job_ends_example :
    IsSettled false a_job job_world
      (run_job false a_job 0 (env (some "down") ∷ env none ∷ []) job_world)
job_ends_example = job_ends false a_job 0 (env (some "down")) (env none ∷ []) job_world refl
