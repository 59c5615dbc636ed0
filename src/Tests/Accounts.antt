-- ===== src/Tests/Accounts.antt =====
-- identity-service on one account with one refresh token.
use ceylon_events.Common.{
  ◌+◌, ◌≡◌, refl, none, some, true, false, [], ◌∷◌, arith, err, unauthorized, no_clash, str_eq,
  if◌then◌else◌,
}
use ceylon_events.Common.Memory.{memory, memory-IsRepository}
use ceylon_events.Identity.Types.{
  User, RefreshPayload, AuthTokens, Crypto, Database, State, Reason, same_user,
}
use ceylon_events.Identity.{refresh, issue_tokens}
use ceylon_events.Identity.Rotation.{refreshes, logs_in, serve_all, refresh_once}

abbrev user_70 : User
user_70 = record {
  id = 70;
  email = "n@example.lk";
  password_hash = "pw";
  full_name = "N";
  roles = [];
  restaurant_id = none;
  is_active = true;
  invite_token = none;
  invite_token_expires_at = none;
}

abbrev payload : RefreshPayload
payload = record { sub = 70; token_id = 1 }

-- The token "R" has the payload above; the nth draw is the id n + 2.
abbrev crypto : Crypto
crypto = record {
  hash_password = λ n password. password;
  compare = str_eq;
  sign_access = λ p now. "A";
  sign_refresh = λ p now. "S";
  verify_refresh = λ token now. if str_eq token "R" then some payload else none;
  sha256 = λ token. token;
  uuid = λ n. n + 2;
  uuid_text = λ n. "U";
  first_12 = λ t. t;
  access_ttl_ms = 900000;
  refresh_ttl_ms = 2592000000;
  notifications = false;
}

abbrev database : Database
database = record {
  users = memory (λ x. x.id) same_user;
  refresh_tokens = memory (λ t. t.id) no_clash;
}

abbrev signed_in : State
signed_in = record {
  users = user_70 ∷ [];
  refresh_tokens =
      record { id = 1; user_id = 70; token_hash = "R"; expires_at = 5000; revoked_at = none } ∷ [];
  draws = 0;
  emails = [];
}

abbrev fresh_tokens : AuthTokens
fresh_tokens = record { access_token = "A"; refresh_token = "S"; expires_in = 900 }

refresh_once_example :
    let s'' =
      serve_all crypto database
        (logs_in "n@example.lk" "pw" 2000 ∷ refreshes "R" 2500 ∷ [])
        (refresh crypto database "R" 1000 signed_in).1 in
    (reason : Reason) × (refresh crypto database "R" 3000 s'' ≡ (err (unauthorized reason), s''))
unfolding refresh issue_tokens
refresh_once_example =
    refresh_once crypto database (memory-IsRepository (λ t. t.id) no_clash) "R" 1000 payload
      fresh_tokens signed_in (refresh crypto database "R" 1000 signed_in).1
      (logs_in "n@example.lk" "pw" 2000 ∷ refreshes "R" 2500 ∷ []) 3000 refl
      (λ at q e. ground (arith, e)) (λ n le. omega arith) refl
