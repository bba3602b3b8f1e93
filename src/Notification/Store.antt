-- ===== src/Notification/Store.antt =====
-- services/notification-service/internal/domain/domain.go and migrations: events, the table of
-- notices, and what one transaction meets.
use shearix_platform.Shared.{ℕ, String, Bool, ◌&&◌, ◌||◌, not, Option, str_eq, ◌==◌, ℤ}
use shearix_platform.GoTime.{Time}
use shearix_platform.Platform.Ids.{Uuid}

-- Envelope; the payload is its JSON text.
pub record NoticeEvent : Type 0 where
  pub event_id : Uuid
  pub event_type : String
  pub event_version : ℤ
  pub tenant_id : Uuid
  pub aggregate_id : Uuid
  pub payload : String

-- public.email_notifications; columns that no statement of the service reads are left out.
pub record Notice : Type 0 where
  pub id : Uuid
  pub tenant_id : Uuid
  pub event_id : Uuid
  pub appointment_id : Uuid
  pub kind : String
  pub recipient : String
  pub template : String
  pub language : String
  pub status : String
  pub attempts : ℕ
  pub message_id : Option String
  pub scheduled_at : Time
  pub next_attempt_at : Time
  pub last_error : Option String
  pub lease_until : Option Time
  pub claim_token : Option Uuid

-- domain.Notification: what a claim answers.
pub record Claimed : Type 0 where
  pub id : Uuid
  pub claim_token : Uuid
  pub tenant_id : Uuid
  pub appointment_id : Uuid
  pub kind : String
  pub email : String
  pub template : String
  pub language : String
  pub attempts : ℕ
  pub recovered : Bool

pub data NoticeError : Type 0 where
  malformed no_resolver unresolved no_offsets invalid_recipient failed : NoticeError

pub data Stmt : Type 0 where
  begin_tx commit_tx insert_notice insert_failure cancel_notices claim_notices finish_notice : Stmt

-- Which statements fail, the time, and the identifiers that gen_random_uuid() gives to the notice of
-- an event and to the claim of a notice.
pub record Env : Type 0 where
  pub fails : Stmt → Bool
  pub now : Time
  pub new_id : Uuid → String → Uuid
  pub new_claim : Uuid → Uuid

-- email_notifications_type_check
unfoldable pub known_kind : String → Bool
known_kind k =
    str_eq k "appointment_created"
    || str_eq k "appointment_rescheduled"
    || str_eq k "appointment_cancelled"
    || str_eq k "appointment_confirmed"
    || str_eq k "appointment_reminder"

-- UNIQUE (tenant_id, event_id, notification_type)
unfoldable pub same_notice : Uuid → Uuid → String → Notice → Bool
same_notice tenant event kind n = n.tenant_id == tenant && n.event_id == event && str_eq n.kind kind

-- status NOT IN ('sent','cancelled')
unfoldable pub is_open : Notice → Bool
is_open n = not (str_eq n.status "sent" || str_eq n.status "cancelled")
