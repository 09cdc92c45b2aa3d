-- ===== src/Emails.antt =====
-- packages/jobs/src/email.ts and the handlers of apps/worker/src/processors/email.tsx: the log of the
-- emails. The rendering and the sending are outside; the job queue is `enqueue` of dohost.Outside.
use dohost.Base.{ℕ, Option, none, some, List, Text, ltb, if◌then◌else◌}
use dohost.Service.{Action, ◌>>=◌, ◌>>◌, pure, lift, modify}
use dohost.Store.{RowId, Tables, Time}
use dohost.Data.{Db, EmailStatus, EmailTemplate, EmailLog}
use dohost.Outside.{Outside, EmailJob}

-- `QueueEmailInput`
pub record EmailInput : Type 0 where
  pub to : Text
  pub subject : Text
  pub template : EmailTemplate
  pub props : List (Text × Text)
  pub related_entity_type : Option Text
  pub related_entity_id : Option RowId

-- The row that is created, `QUEUED`.
unfoldable pub email_log : RowId → EmailInput → EmailLog
email_log tenant input = record {
  tenant_id = tenant;
  to_email = input.to;
  template_key = input.template;
  subject = input.subject;
  status = EmailStatus.queued;
  provider_message_id = none;
  error = none;
  related_entity_type = input.related_entity_type;
  related_entity_id = input.related_entity_id;
  attempts = 0;
  sent_at = none;
}

-- The job of a logged email.
unfoldable pub email_job : RowId → EmailInput → EmailJob
email_job log_id input = record {
  email_log_id = log_id;
  to = input.to;
  subject = input.subject;
  template = input.template;
  props = input.props;
  related_entity_type = input.related_entity_type;
  related_entity_id = input.related_entity_id;
}

module _ (T : Tables) where
  -- `queueEmail`: the row first, then the job, so that the row stays when the queue throws.
  unfoldable pub queue_email : Outside → RowId → EmailInput → Action (Db T) (Unit {0})
  queue_email outside tenant input = do
    log_id ← (λ db. pure (T.create db.email_logs (email_log tenant input)).0 db)
    modify (λ db. record db { email_logs = (T.create db.email_logs (email_log tenant input)).1 })
    lift (outside.enqueue (email_job log_id input))

  -- An update of a log row; a failing one is only logged.
  unfoldable pub update_log : RowId → (EmailLog → EmailLog) → T.Table EmailLog → T.Table EmailLog
  update_log log_id change logs = elim (T.find logs log_id) [
    | none ↦ logs
    | some row ↦ T.write logs log_id (change row)
  ]

  -- The handler of "completed".
  unfoldable pub email_completed : Time → RowId → Text → ℕ → Action (Db T) (Unit {0})
  email_completed now log_id message_id attempts_made = modify (λ db. record db {
    email_logs =
        update_log log_id
          (λ row. record row {
            status = EmailStatus.sent;
            provider_message_id = some message_id;
            sent_at = some now;
            attempts = attempts_made;
          })
          db.email_logs;
  })

  -- The handler of "failed", with the attempts that the job may take: only the last failure is entered.
  unfoldable pub email_failed : RowId → Text → ℕ → ℕ → Action (Db T) (Unit {0})
  email_failed log_id message attempts_made attempts =
      if ltb attempts_made attempts
      then pure tt
      else modify (λ db. record db {
        email_logs =
            update_log log_id
              (λ row. record row {
                status = EmailStatus.failed;
                error = some message;
                attempts = attempts_made;
              })
              db.email_logs;
      })
