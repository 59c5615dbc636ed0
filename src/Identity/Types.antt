-- ===== src/Identity/Types.antt =====
-- The rows, the payloads and the errors of identity-service: users/entities, the token payloads of
-- libs/shared-types/src/auth.ts, and what the service takes from libraries.
use ceylon_events.Common.{ℕ, Bool, Option, List, String, str_eq, ◌||◌, both_say, Repository}
use ceylon_events.Shared.{UserRole}

-- Columns that the database fills (`created_at`, `updated_at`) are left out.
pub record User : Type 0 where
  pub id : ℕ
  pub email : String
  pub password_hash : String
  pub full_name : String
  pub roles : List UserRole
  pub restaurant_id : Option ℕ
  pub is_active : Bool
  pub invite_token : Option String
  pub invite_token_expires_at : Option ℕ

-- The unique indexes of `email` and `invite_token`.
abbrev pub same_user : User → User → Bool
same_user a b = str_eq a.email b.email || both_say a.invite_token b.invite_token

pub record RefreshToken : Type 0 where
  pub id : ℕ
  pub user_id : ℕ
  pub token_hash : String
  pub expires_at : ℕ
  pub revoked_at : Option ℕ

pub record AccessPayload : Type 0 where
  pub sub : ℕ
  pub email : String
  pub roles : List UserRole
  pub restaurant_id : Option ℕ

pub record RefreshPayload : Type 0 where
  pub sub : ℕ
  pub token_id : ℕ

pub record AuthTokens : Type 0 where
  pub access_token : String
  pub refresh_token : String
  pub expires_in : ℕ

pub record Authenticated : Type 0 where
  pub user : User
  pub tokens : AuthTokens

pub record Invited : Type 0 where
  pub user : User
  pub secret : String

-- The messages of the exceptions that the service throws.
pub data Reason : Type 0 where
  email_taken invalid_credentials invalid_refresh_token refresh_token_revoked : Reason
  user_inactive invalid_invite : Reason

pub record InviteEmail : Type 0 where
  pub to : String
  pub full_name : String
  pub invite_token : String

-- bcrypt, the JWT library and Node's crypto, and the environment: `hash_password` gets the salt of the
-- nth draw, `verify_refresh` the time, `uuid` and `uuid_text` the nth draw, as an id and as text.
pub record Crypto : Type 0 where
  pub hash_password : ℕ → String → String
  pub compare : String → String → Bool
  pub sign_access : AccessPayload → ℕ → String
  pub sign_refresh : RefreshPayload → ℕ → String
  pub verify_refresh : String → ℕ → Option RefreshPayload
  pub sha256 : String → String
  pub uuid : ℕ → ℕ
  pub uuid_text : ℕ → String
  pub first_12 : String → String
  pub access_ttl_ms : ℕ
  pub refresh_ttl_ms : ℕ
  pub notifications : Bool

pub record Database : Type 0 where
  pub users : Repository User
  pub refresh_tokens : Repository RefreshToken

-- `draws` counts the random values drawn; `emails` are those handed to notification-service.
pub record State : Type 0 where
  pub users : List User
  pub refresh_tokens : List RefreshToken
  pub draws : ℕ
  pub emails : List InviteEmail
