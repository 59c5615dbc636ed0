-- ===== src/Notifications/Types.antt =====
-- The rows, the request bodies and the errors of notification-service: notifications/entities, notifications/dto, and
-- libs/shared-types/src/notification.ts. Metadata is any JSON value: it stands as its text.
use ceylon_events.Common.{ℕ, Option, List, String}
use ceylon_events.Shared.{NotificationType}

pub record Notification : Type 0 where
  pub id : ℕ
  pub user_id : ℕ
  pub notification_type : NotificationType
  pub title : String
  pub body : String
  pub metadata : Option String
  pub read_at : Option ℕ
  pub created_at : ℕ

pub record CreateNotificationInternal : Type 0 where
  pub user_id : ℕ
  pub notification_type : NotificationType
  pub title : String
  pub body : String
  pub metadata : Option String

pub record NotificationSnapshot : Type 0 where
  pub id : ℕ
  pub user_id : ℕ
  pub notification_type : NotificationType
  pub title : String
  pub body : String
  pub metadata : Option String
  pub read_at : Option ℕ
  pub created_at : ℕ

pub record NotificationListResult : Type 0 where
  pub items : List NotificationSnapshot
  pub total : ℕ
  pub unread_count : ℕ
  pub page : ℕ
  pub page_size : ℕ

-- The messages of the exceptions that the service throws.
pub data Reason : Type 0 where
  notification_not_found may_not_modify : Reason

-- The world has the subscribers of the realtime service.
pub record State (W : Type 0) : Type 0 where
  pub notifications : List Notification
  pub world : W
