-- ===== src/Tests/Inbox.antt =====
-- notification-service on a user with one unread notification.
use ceylon_events.Common.{ℕ, ◌≡◌, refl, none, some, List, [], ◌∷◌, no_clash, Repository}
use ceylon_events.Common.Memory.{memory, memory-IsRepository}
use ceylon_events.Shared.{order_confirmed}
use ceylon_events.Notifications.Types.{Notification, NotificationSnapshot, State}
use ceylon_events.Notifications.Read.{
  Became, marks_read, marks_all_read, notification_row, serve_all, serve_all-Became,
}

abbrev notifications_table : Repository Notification
notifications_table = memory (λ n. n.id) no_clash

abbrev publish : ℕ → NotificationSnapshot → List NotificationSnapshot → List NotificationSnapshot
publish user_id n sent = n ∷ sent

abbrev notice_1 : Notification
notice_1 = record {
  id = 1;
  user_id = 70;
  notification_type = order_confirmed;
  title = "Order confirmed";
  body = "See you soon";
  metadata = none;
  read_at = none;
  created_at = 100;
}

abbrev unread : State (List NotificationSnapshot)
unread = record { notifications = notice_1 ∷ []; world = [] }

serve_all-Became_example :
    (y : Notification) × (notification_row publish notifications_table 1 (
        serve_all publish notifications_table
          ((200, marks_read 1 70) ∷ (300, marks_all_read 70) ∷ [])
          unread)
      ≡ some y)
    × Became notice_1 y
serve_all-Became_example =
    serve_all-Became publish notifications_table (memory-IsRepository (λ n. n.id) no_clash)
      ((200, marks_read 1 70) ∷ (300, marks_all_read 70) ∷ []) 1 notice_1 unread refl
