-- ===== src/Notifications.antt =====
-- services/notification-service/src/notifications/notifications.service.ts, method by method. `publish` of the
-- realtime service, which is an RxJS subject, is a parameter.
pub mod Types
pub mod Read
use ceylon_events.Common.{
  ℕ, ◌-◌, ◌*◌, Bool, true, false, not, ◌&&◌, Option, none, some, List, map, take, drop, length,
  ◌==◌, is_some, if◌then◌else◌, Action, ok, err, not_found, forbidden, internal_error, pure, gets,
  modify, throw_if, or_throw, ◌>>=◌, ◌>>◌, Repository,
}
use Types.{
  Notification, CreateNotificationInternal, NotificationSnapshot, NotificationListResult, Reason,
  State, notification_not_found, may_not_modify,
}

abbrev pub to_snapshot : Notification → NotificationSnapshot
to_snapshot n = record {
  id = n.id;
  user_id = n.user_id;
  notification_type = n.notification_type;
  title = n.title;
  body = n.body;
  metadata = n.metadata;
  read_at = n.read_at;
  created_at = n.created_at;
}

-- `user_id = :userId AND read_at IS NULL`
abbrev pub is_unread_of : ℕ → Notification → Bool
is_unread_of user_id n = n.user_id == user_id && not (is_some n.read_at)

abbrev pub read_now : ℕ → Notification → Notification
read_now now n = record n { read_at = some now }

module _ {W : Type 0} (publish : ℕ → NotificationSnapshot → W → W)
    (notifications : Repository Notification) where
  insert_notification : Notification → Action (State W) Reason Notification
  insert_notification n s = elim (notifications.insert n s.notifications) [
    | none ↦ (err internal_error, s)
    | some table ↦ (ok n, record s { notifications = table })
  ]

  unfoldable pub create_internal :
      CreateNotificationInternal → ℕ → Action (State W) Reason NotificationSnapshot
  unfolding insert_notification
  create_internal dto now = do
    id ← gets (λ s. notifications.fresh s.notifications)
    notification ← insert_notification (record {
      id = id;
      user_id = dto.user_id;
      notification_type = dto.notification_type;
      title = dto.title;
      body = dto.body;
      metadata = dto.metadata;
      read_at = none;
      created_at = now;
    })
    modify (λ s. record s { world = publish dto.user_id (to_snapshot notification) s.world })
    pure (to_snapshot notification)

  unfoldable pub list_for_user : ℕ → ℕ → ℕ → State W → NotificationListResult
  list_for_user user_id page page_size s =
      let rows = notifications.find (λ n. n.user_id == user_id) s.notifications in
      record {
        items = map to_snapshot (take page_size (drop ((page - 1) * page_size) rows));
        total = length rows;
        unread_count = length (notifications.find (is_unread_of user_id) s.notifications);
        page = page;
        page_size = page_size;
      }

  -- `if (!notification.readAt) { … }`
  abbrev read_if_unread : Notification → ℕ → Action (State W) Reason Notification
  read_if_unread n now s = if is_some n.read_at then (ok n, s) else (
    ok (read_now now n),
    record s { notifications = notifications.save (read_now now n) s.notifications },
  )

  unfoldable pub mark_read : ℕ → ℕ → ℕ → Action (State W) Reason NotificationSnapshot
  mark_read id user_id now = do
    found ← gets (λ s. notifications.find_one (λ n. n.id == id) s.notifications)
    notification ← or_throw found (not_found notification_not_found)
    throw_if (not (notification.user_id == user_id)) (forbidden may_not_modify)
    marked ← read_if_unread notification now
    pure (to_snapshot marked)

  unfoldable pub mark_all_read : ℕ → ℕ → Action (State W) Reason (Unit {0})
  mark_all_read user_id now = modify (λ s. record s {
    notifications = notifications.update (is_unread_of user_id) (read_now now) s.notifications;
  })
