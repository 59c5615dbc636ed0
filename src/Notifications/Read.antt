-- ===== src/Notifications/Read.antt =====
-- What is read stays read, and nothing else changes.
use ceylon_events.Common.{
  ℕ, ◌≡◌, refl, ◌∙◌, sym, ap, ◌⊎◌, inl, inr, not, ◌&&◌, Option, none, some, List, [], ◌∷◌, length,
  arith, ◌==◌, ==_iff, is_some, if◌then◌else◌, ok, Repository, IsRepository, row, row-key,
  insert-fresh_row, no_clash, find_one-key, find-nil, Option-cases, Bool-cases,
}
use ceylon_events.Notifications.Types.{
  Notification, NotificationSnapshot, CreateNotificationInternal, State,
}
use ceylon_events.Notifications.{
  create_internal, list_for_user, mark_read, mark_all_read, insert_notification, is_unread_of,
  read_now,
}

pub data Request : Type 0 where
  creates : CreateNotificationInternal → Request
  marks_read : ℕ → ℕ → Request
  marks_all_read : ℕ → Request

-- A later row of a notification: the same, or marked as read meanwhile.
unfoldable pub Became : Notification → Notification → Type 0
Became x y = (y ≡ x) ⊎ ((x.read_at ≡ none) × (t : ℕ) × (y ≡ read_now t x))

Became-trans : (x y z : Notification) → Became x y → Became y z → Became x z
unfolding Became
Became-trans x y z (inl e) (inl e') = inl (e' ∙ e)
Became-trans x y z (inl e) (inr (unread, t, e')) =
    inr (ap (λ n. n.read_at) (sym e) ∙ unread, t, e' ∙ ap (read_now t) e)
Became-trans x y z (inr (unread, t, e)) (inl e') = inr (unread, t, e' ∙ e)
Became-trans x y z (inr (unread, t, e)) (inr (unread', t', e')) = absurd (ground arith)

module _ {W : Type 0} (publish : ℕ → NotificationSnapshot → W → W)
    (notifications : Repository Notification) where
  abbrev pub notification_row : ℕ → State W → Option Notification
  notification_row k s = row (λ n. n.id) k s.notifications

  -- The requests come with the time of the clock.
  unfoldable pub serve : ℕ → Request → State W → State W
  serve now (creates dto) s = (create_internal publish notifications dto now s).1
  serve now (marks_read id user_id) s = (mark_read publish notifications id user_id now s).1
  serve now (marks_all_read user_id) s = (mark_all_read publish notifications user_id now s).1

  unfoldable pub serve_all : List (ℕ × Request) → State W → State W
  serve_all [] s = s
  serve_all ((now, r) ∷ rs) s = serve_all rs (serve now r s)

  module _ (lawful : IsRepository (λ n. n.id) no_clash notifications) where
    serve-Became :
        (now : ℕ) (r : Request) (k : ℕ) (x : Notification) (s : State W)
        → notification_row k s ≡ some x
        → (y : Notification) × (notification_row k (serve now r s) ≡ some y) × Became x y
    unfolding serve Became create_internal mark_read mark_all_read insert_notification
    serve-Became now (creates dto) k x s at =
        let n : Notification = record {
          id = notifications.fresh s.notifications;
          user_id = dto.user_id;
          notification_type = dto.notification_type;
          title = dto.title;
          body = dto.body;
          metadata = dto.metadata;
          read_at = none;
          created_at = now;
        } in
        elim (Option-cases (notifications.insert n s.notifications)) [
          | inl e ↦ (x, ground (arith, e), inl refl)
          | inr (t, e) ↦
              let (new_at, kept) = insert-fresh_row (λ y. y.id) lawful n s.notifications t refl e in
              (x, ground (arith, e, kept k x at), inl refl)
        ]
    serve-Became now (marks_read id user_id) k x s at =
        let found = find_one-key (λ y. y.id) lawful id s.notifications in
        elim (Option-cases (row (λ y. y.id) id s.notifications)) [
          | inl gone ↦ (x, ground (arith, found), inl refl)
          | inr (n, n_at) ↦ elim (Bool-cases (n.user_id == user_id && not (is_some n.read_at))) [
            | inr kept ↦ (x, ground (arith, found), inl refl)
            | inl marked ↦
                let saved = lawful.row-save (read_now now n) s.notifications k in
                elim (Bool-cases (n.id == k)) [
                  | inr other ↦ (x, ground (arith, found, saved), inl refl)
                  | inl own ↦
                      let id_is = row-key (λ y. y.id) s.notifications id n n_at in
                      let n_is : n ≡ x = ground (arith, id_is, ==_iff n.id k) in
                      (
                        read_now now x,
                        ground (arith, found, saved, n_is),
                        inr (ap (λ y. y.read_at) (sym n_is) ∙ ground arith, now, refl),
                      )
                ]
          ]
        ]
    serve-Became now (marks_all_read user_id) k x s at =
        let updated =
          lawful.row-update (is_unread_of user_id) (read_now now) s.notifications k (λ n. refl) in
        elim (Bool-cases (is_unread_of user_id x)) [
          | inl hit ↦ (read_now now x, ground (arith, updated), inr (ground arith, now, refl))
          | inr miss ↦ (x, ground (arith, updated), inl refl)
        ]

    -- Over any history of new notifications and of users marking theirs as read, a notification
    -- keeps its recipient and its text; and once it is read, the time when it was.
    pub serve_all-Became :
        (rs : List (ℕ × Request)) (k : ℕ) (x : Notification) (s : State W)
        → notification_row k s ≡ some x
        → (y : Notification) × (notification_row k (serve_all rs s) ≡ some y) × Became x y
    unfolding serve_all Became
    serve_all-Became [] k x s at = (x, at, inl refl)
    serve_all-Became ((now, r) ∷ rs) k x s at =
        let (y, y_at, first) = serve-Became now r k x s at in
        let (z, z_at, later) = serve_all-Became rs k y (serve now r s) y_at in
        (z, z_at, Became-trans x y z first later)

    -- After a user marks all as read, they have no unread notification, whichever page they look at;
    -- theirs that were unread are read as of now, and all others stay as they were.
    mark_all_read_lem :
        (user_id now page page_size : ℕ) (s : State W)
        → let (r, s') = mark_all_read publish notifications user_id now s in
          (r ≡ ok tt)
          × ((list_for_user publish notifications user_id page page_size s').unread_count ≡ 0)
          × ((k : ℕ) (x : Notification)
              → notification_row k s ≡ some x
              → notification_row k s' ≡ some (if is_unread_of user_id x then read_now now x else x))
    unfolding mark_all_read list_for_user
    mark_all_read_lem user_id now page page_size s =
        let p = is_unread_of user_id in
        let updated = λ (k : ℕ). lawful.row-update p (read_now now) s.notifications k (λ n. refl) in
        (
          refl,
          ap length (
              find-nil (λ n. n.id) lawful p (notifications.update p (read_now now) s.notifications)
                λ k x at. elim (Option-cases (row (λ n. n.id) k s.notifications)) [
                  | inl gone ↦ absurd (ground (arith, updated k))
                  | inr (y, y_at) ↦ elim (Bool-cases (p y)) [
                    | inl hit ↦ ground (arith, updated k)
                    | inr miss ↦ ground (arith, updated k)
                  ]
                ]),
          λ k x at. ground (arith, updated k),
        )
