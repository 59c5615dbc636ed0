-- ===== src/Shared.antt =====
-- libs/shared-types: the enums that the services exchange (enums.ts, roles.ts, venue.ts), the token
-- payload (auth.ts), and the checks on it that each service repeats in its auth helpers.
use ceylon_events.Common.{
  ◌-◌, ◌*◌, take, drop, length, ℕ, Bool, true, false, not, Option, none, some, List, any, has_value,
  if◌then◌else◌, ◌≡◌, arith,
}

pub data UserRole : Type 0 where
  super_admin admin restaurant_owner restaurant_staff customer : UserRole

pub data EventStatus : Type 0 where
  draft published cancelled completed : EventStatus

pub data PaymentMethod : Type 0 where
  payhere payment_proof : PaymentMethod

pub data PaymentStatus : Type 0 where
  pending approved rejected refunded : PaymentStatus

pub data OrderStatus : Type 0 where
  pending paid confirmed cancelled refunded : OrderStatus

pub data DiscountType : Type 0 where
  percentage fixed free_item : DiscountType

pub data FoodOrderStatus : Type 0 where
  received preparing ready served : FoodOrderStatus

pub data FoodOrderSource : Type 0 where
  pre_order waiter : FoodOrderSource

pub data RedemptionType : Type 0 where
  unlimited capped single_use : RedemptionType

pub data RatingSubjectType : Type 0 where
  event menu_item : RatingSubjectType

pub data TicketStatus : Type 0 where
  issued checked_in : TicketStatus

pub data NotificationType : Type 0 where
  order_confirmed order_cancelled payment_failed food_order_ready : NotificationType

pub data SeatStatus : Type 0 where
  available held held_by_me sold : SeatStatus

-- The tests `status === X` of the services.
abbrev pub is_pending_order : OrderStatus → Bool
is_pending_order s = elim s [ OrderStatus.pending ↦ true | _ ↦ false ]

abbrev pub is_confirmed_order : OrderStatus → Bool
is_confirmed_order s = elim s [ OrderStatus.confirmed ↦ true | _ ↦ false ]

pub is_confirmed_order-eq :
    (t : OrderStatus) → is_confirmed_order t ≡ true → t ≡ OrderStatus.confirmed
is_confirmed_order-eq t h = ground arith

abbrev pub is_cancelled_order : OrderStatus → Bool
is_cancelled_order s = elim s [ OrderStatus.cancelled ↦ true | _ ↦ false ]

abbrev pub is_pending_payment : PaymentStatus → Bool
is_pending_payment s = elim s [ PaymentStatus.pending ↦ true | _ ↦ false ]

abbrev pub is_approved_payment : PaymentStatus → Bool
is_approved_payment s = elim s [ PaymentStatus.approved ↦ true | _ ↦ false ]

abbrev pub is_published : EventStatus → Bool
is_published s = elim s [ EventStatus.published ↦ true | _ ↦ false ]

abbrev pub is_checked_in : TicketStatus → Bool
is_checked_in s = elim s [ checked_in ↦ true | _ ↦ false ]

abbrev pub is_ready : FoodOrderStatus → Bool
is_ready s = elim s [ FoodOrderStatus.ready ↦ true | _ ↦ false ]

abbrev pub is_event_subject : RatingSubjectType → Bool
is_event_subject t = elim t [ event ↦ true | menu_item ↦ false ]

-- `a === b`
abbrev pub same_subject_type : RatingSubjectType → RatingSubjectType → Bool
same_subject_type event t = is_event_subject t
same_subject_type menu_item t = not (is_event_subject t)

abbrev pub is_payhere : PaymentMethod → Bool
is_payhere m = elim m [ payhere ↦ true | payment_proof ↦ false ]

abbrev pub is_held_by_me : Option SeatStatus → Bool
is_held_by_me none = false
is_held_by_me (some s) = elim s [ held_by_me ↦ true | _ ↦ false ]

-- One page of the rows that a query selects; pages are counted from 1.
pub record PaginatedResult (A : Type 0) : Type 0 where
  pub items : List A
  pub total : ℕ
  pub page : ℕ
  pub page_size : ℕ

-- `skip: (page - 1) * pageSize, take: pageSize`
abbrev pub paginated : {A : Type 0} → ℕ → ℕ → List A → PaginatedResult A
paginated page page_size rows = record {
  items = take page_size (drop ((page - 1) * page_size) rows);
  total = length rows;
  page = page;
  page_size = page_size;
}

abbrev pub same_payment_status : PaymentStatus → PaymentStatus → Bool
same_payment_status pending s = elim s [ PaymentStatus.pending ↦ true | _ ↦ false ]
same_payment_status approved s = elim s [ PaymentStatus.approved ↦ true | _ ↦ false ]
same_payment_status rejected s = elim s [ PaymentStatus.rejected ↦ true | _ ↦ false ]
same_payment_status refunded s = elim s [ PaymentStatus.refunded ↦ true | _ ↦ false ]

-- What the services read of a verified access token.
pub record JwtAccessPayload : Type 0 where
  pub sub : ℕ
  pub roles : List UserRole
  pub restaurant_id : Option ℕ

abbrev pub is_admin_role : UserRole → Bool
is_admin_role r = elim r [ super_admin ↦ true | admin ↦ true | _ ↦ false ]

abbrev pub is_platform_admin : JwtAccessPayload → Bool
is_platform_admin user = any is_admin_role user.roles

unfoldable pub can_manage_restaurant : JwtAccessPayload → ℕ → Bool
can_manage_restaurant user restaurant_id =
    if is_platform_admin user then true else has_value user.restaurant_id restaurant_id

-- `canManageRestaurant(caller, id)`, where there may be no caller.
abbrev pub may_manage : Option JwtAccessPayload → ℕ → Bool
may_manage none restaurant_id = false
may_manage (some caller) restaurant_id = can_manage_restaurant caller restaurant_id
