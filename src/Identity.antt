-- ===== src/Identity.antt =====
-- services/identity-service/src/auth/auth.service.ts, with users/users.service.ts: accounts, sessions and
-- invitations. `now` is `Date.now()`.
pub mod Types
pub mod Spent
pub mod Rotation
use ceylon_events.Common.{
  ℕ, ◌+◌, ◌*◌, ◌/◌, Bool, true, false, not, ◌||◌, Option, none, some, List, [], ◌∷◌, ◌==◌, ltb,
  is_some, has_value, or_else, if◌then◌else◌, String, str_eq, Result, Action, ok, err, unauthorized,
  conflict, internal_error, pure, gets, modify, skip, throw_if, or_throw, ◌>>=◌, ◌>>◌,
}
use ceylon_events.Shared.{UserRole, restaurant_owner, customer}
use Types.{
  User, RefreshToken, AccessPayload, RefreshPayload, AuthTokens, Authenticated, Invited, Reason,
  InviteEmail, Crypto, Database, State, email_taken, invalid_credentials, invalid_refresh_token,
  refresh_token_revoked, user_inactive, invalid_invite,
}

-- Seven days.
abbrev pub invite_ttl_ms : ℕ
invite_ttl_ms = 7 * 24 * 60 * 60 * 1000

abbrev says : String → Option String → Bool
says text none = false
says text (some x) = str_eq x text

-- `x.getTime() < Date.now()`
abbrev pub is_past : ℕ → ℕ → Bool
is_past at now = ltb at now

-- No invitation, or one that is over.
abbrev pub is_lapsed : Option ℕ → ℕ → Bool
is_lapsed none now = true
is_lapsed (some at) now = is_past at now

-- The stored token may not be used at `now`.
abbrev pub is_unusable : Crypto → String → ℕ → Option RefreshToken → Bool
is_unusable c token now none = true
is_unusable c token now (some stored) =
    not (str_eq stored.token_hash (c.sha256 token))
    || is_some stored.revoked_at
    || is_past stored.expires_at now

abbrev pub is_inactive : Option User → Bool
is_inactive none = true
is_inactive (some user) = not user.is_active

module _ (c : Crypto) (db : Database) where
  abbrev pub find_by_email : String → State → Option User
  find_by_email email s = db.users.find_one (λ x. str_eq x.email email) s.users

  abbrev pub find_by_id : ℕ → State → Option User
  find_by_id id s = db.users.find_one (λ x. x.id == id) s.users

  abbrev pub find_by_invite_token : String → State → Option User
  find_by_invite_token token s = db.users.find_one (λ x. says token x.invite_token) s.users

  -- The number of the next random draw.
  abbrev draw : Action State Reason ℕ
  draw s = (ok s.draws, record s { draws = s.draws + 1 })

  abbrev insert_user : User → Action State Reason User
  insert_user user s = elim (db.users.insert user s.users) [
    | none ↦ (err internal_error, s)
    | some table ↦ (ok user, record s { users = table })
  ]

  pub create_user : (ℕ → User) → Action State Reason User
  create_user make = do id ← gets (λ s. db.users.fresh s.users); insert_user (make id)

  abbrev pub access_payload : User → AccessPayload
  access_payload user = record {
    sub = user.id;
    email = user.email;
    roles = user.roles;
    restaurant_id = user.restaurant_id;
  }

  abbrev save_token : RefreshToken → State → State
  save_token token s = record s { refresh_tokens = db.refresh_tokens.save token s.refresh_tokens }

  unfoldable pub issue_tokens : User → ℕ → Action State Reason AuthTokens
  issue_tokens user now = do
    let access_token = c.sign_access (access_payload user) now
    n ← draw
    let token_id = c.uuid n
    let refresh_token = c.sign_refresh (record { sub = user.id; token_id = token_id }) now
    modify (
        save_token (record {
          id = token_id;
          user_id = user.id;
          token_hash = c.sha256 refresh_token;
          expires_at = now + c.refresh_ttl_ms;
          revoked_at = none;
        }))
    pure (record {
      access_token = access_token;
      refresh_token = refresh_token;
      expires_in = c.access_ttl_ms / 1000;
    })

  -- An account of a customer, with the defaults of `createUser`.
  abbrev pub plain_user : String → String → String → ℕ → User
  plain_user email password_hash full_name id = record {
    id = id;
    email = email;
    password_hash = password_hash;
    full_name = full_name;
    roles = customer ∷ [];
    restaurant_id = none;
    is_active = true;
    invite_token = none;
    invite_token_expires_at = none;
  }

  pub register : String → String → String → ℕ → Action State Reason Authenticated
  unfolding create_user issue_tokens
  register email password full_name now = do
    existing ← gets (find_by_email email)
    throw_if (is_some existing) (conflict email_taken)
    n ← draw
    user ← create_user (plain_user email (c.hash_password n password) full_name)
    tokens ← issue_tokens user now
    pure (record { user = user; tokens = tokens })

  abbrev user_or_throw : Option User → Reason → Action State Reason User
  user_or_throw found reason = do
    throw_if (is_inactive found) (unauthorized reason)
    or_throw found (unauthorized reason)

  pub login : String → String → ℕ → Action State Reason Authenticated
  unfolding issue_tokens
  login email password now = do
    found ← gets (find_by_email email)
    user ← user_or_throw found invalid_credentials
    throw_if (not (c.compare password user.password_hash)) (unauthorized invalid_credentials)
    tokens ← issue_tokens user now
    pure (record { user = user; tokens = tokens })

  abbrev pub find_token : ℕ → State → Option RefreshToken
  find_token id s = db.refresh_tokens.find_one (λ x. x.id == id) s.refresh_tokens

  unfoldable pub refresh : String → ℕ → Action State Reason AuthTokens
  unfolding issue_tokens
  refresh token now = do
    payload ← or_throw (c.verify_refresh token now) (unauthorized invalid_refresh_token)
    found ← gets (find_token payload.token_id)
    throw_if (is_unusable c token now found) (unauthorized refresh_token_revoked)
    stored ← or_throw found (unauthorized refresh_token_revoked)
    account ← gets (find_by_id payload.sub)
    user ← user_or_throw account user_inactive
    modify (save_token (record stored { revoked_at = some now }))
    issue_tokens user now

  abbrev revoke : ℕ → RefreshPayload → State → State
  revoke now payload s = record s {
    refresh_tokens =
        db.refresh_tokens.update (λ x. x.id == payload.token_id)
          (λ x. record x { revoked_at = some now }) s.refresh_tokens;
  }

  pub logout : String → ℕ → State → State
  logout token now s = elim (c.verify_refresh token now) [
    | none ↦ s
    | some payload ↦ revoke now payload s
  ]

  pub invite_restaurant_staff : String → String → ℕ → UserRole → Action State Reason Invited
  unfolding create_user
  invite_restaurant_staff email full_name restaurant_id role = do
    existing ← gets (find_by_email email)
    throw_if (is_some existing) (conflict email_taken)
    n ← draw
    let temp_password = c.first_12 (c.uuid_text n)
    m ← draw
    user ← create_user λ id.
        record (plain_user email (c.hash_password m temp_password) full_name id) {
          roles = role ∷ [];
          restaurant_id = some restaurant_id;
        }
    pure (record { user = user; secret = temp_password })

  pub send_invite_email : InviteEmail → State → State
  send_invite_email email s = if c.notifications then record s { emails = email ∷ s.emails } else s

  pub invite_restaurant_owner : String → String → ℕ → ℕ → Action State Reason Invited
  unfolding create_user send_invite_email
  invite_restaurant_owner email full_name restaurant_id now = do
    existing ← gets (find_by_email email)
    throw_if (is_some existing) (conflict email_taken)
    n ← draw
    let invite_token = c.uuid_text n
    m ← draw
    k ← draw
    user ← create_user λ id.
        record (plain_user email (c.hash_password k (c.uuid_text m)) full_name id) {
          roles = restaurant_owner ∷ [];
          restaurant_id = some restaurant_id;
          is_active = false;
          invite_token = some invite_token;
          invite_token_expires_at = some (now + invite_ttl_ms);
        }
    modify (
        send_invite_email
          (record { to = user.email; full_name = user.full_name; invite_token = invite_token }))
    pure (record { user = user; secret = invite_token })

  abbrev invited_or_throw : Option User → ℕ → Action State Reason User
  invited_or_throw none now s = (err (unauthorized invalid_invite), s)
  invited_or_throw (some user) now s = (
    if is_lapsed user.invite_token_expires_at now
        then err (unauthorized invalid_invite)
        else ok user,
    s,
  )

  pub accept_invite : String → String → ℕ → Action State Reason Authenticated
  unfolding issue_tokens
  accept_invite token password now = do
    found ← gets (find_by_invite_token token)
    invited ← invited_or_throw found now
    n ← draw
    let user : User = record invited {
      password_hash = c.hash_password n password;
      is_active = true;
      invite_token = none;
      invite_token_expires_at = none;
    }
    modify (λ s. record s { users = db.users.save user s.users })
    tokens ← issue_tokens user now
    pure (record { user = user; tokens = tokens })
