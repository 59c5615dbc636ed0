-- ===== src/Identity/Spent.antt =====
-- A refresh token that is spent stays so, whatever the service does.
use mathlib.Core.Option
use ceylon_events.Common.{
  ℕ, ◌+◌, ◌≤◌, ◌≡◌, ◌≢◌, refl, ◌∙◌, ap, subst, inl, inr, true, ◌&&◌, Option, none, some, arith,
  ◌==◌, if◌then◌else◌, is_some, String, IsRepository, row, no_clash, Option-cases, Bool-cases,
  Result-cases,
}
use ceylon_events.Shared.{UserRole}
use ceylon_events.Identity.Types.{User, RefreshToken, Crypto, Database, State}
use ceylon_events.Identity.{
  register, login, refresh, logout, invite_restaurant_staff, invite_restaurant_owner, accept_invite,
  create_user, issue_tokens, find_by_email, find_by_id, find_by_invite_token, find_token,
  is_unusable, plain_user, send_invite_email, is_lapsed,
}

abbrev pub token_row : ℕ → State → Option RefreshToken
token_row k s = row (λ t. t.id) k s.refresh_tokens

module _ (c : Crypto) (db : Database) where
  -- The token is stored and revoked, and its id is not drawn any more.
  pub record IsSpent (id : ℕ) (s : State) : Type 0 where
    pub stored : RefreshToken
    pub at : token_row id s ≡ some stored
    pub revoked : is_some stored.revoked_at ≡ true
    pub undrawn : (n : ℕ) → s.draws ≤ n → c.uuid n ≢ id

  -- The tokens stay, and draws only go up.
  pub record Calm (s s' : State) : Type 0 where
    tokens : s'.refresh_tokens ≡ s.refresh_tokens
    draws : s.draws ≤ s'.draws

  Calm-IsSpent : (id : ℕ) (s s' : State) → Calm s s' → IsSpent id s → IsSpent id s'
  Calm-IsSpent id s s' calm spent = record {
    stored = spent.stored;
    at = ap (row (λ t. t.id) id) calm.tokens ∙ spent.at;
    revoked = spent.revoked;
    undrawn = λ n le. spent.undrawn n (omega (arith, calm.draws));
  }

  create_user-Calm : (make : ℕ → User) (s : State) → Calm s (create_user c db make s).1
  unfolding create_user
  create_user-Calm make s =
      elim (Option-cases (db.users.insert (make (db.users.fresh s.users)) s.users)) [
        | inl e ↦ record { tokens = ground arith; draws = ground arith }
        | inr (t, e) ↦ record { tokens = ground arith; draws = ground arith }
      ]

  module _ (lawful : IsRepository (λ t. t.id) no_clash db.refresh_tokens) where
    pub issue_tokens-IsSpent :
        (id now : ℕ) (user : User) (s : State)
        → IsSpent id s
        → IsSpent id (issue_tokens c db user now s).1
    unfolding issue_tokens
    issue_tokens-IsSpent id now user s spent = record {
      stored = spent.stored;
      at = ground (
        arith,
        spent.at,
        lawful.row-save
            (record {
              id = c.uuid s.draws;
              user_id = user.id;
              token_hash =
                  c.sha256
                    (c.sign_refresh (record { sub = user.id; token_id = c.uuid s.draws }) now);
              expires_at = now + c.refresh_ttl_ms;
              revoked_at = none;
            })
            s.refresh_tokens id,
        spent.undrawn s.draws,
      );
      revoked = spent.revoked;
      undrawn = λ n le. spent.undrawn n (omega arith);
    }

    -- Revoking tokens, at any time, leaves a spent one spent.
    saved-IsSpent :
        (id now : ℕ) (x : RefreshToken) (s : State)
        → IsSpent id s
        → IsSpent id (record s {
          refresh_tokens =
              db.refresh_tokens.save (record x { revoked_at = some now }) s.refresh_tokens;
        })
    saved-IsSpent id now x s spent =
        let x' : RefreshToken = record x { revoked_at = some now } in
        let law = lawful.row-save x' s.refresh_tokens id in
        elim (Bool-cases (x.id == id)) [
          | inl hit ↦ record {
            stored = x';
            at = law ∙ rw hit refl;
            revoked = refl;
            undrawn = spent.undrawn;
          }
          | inr miss ↦ record {
            stored = spent.stored;
            at = law ∙ rw miss spent.at;
            revoked = spent.revoked;
            undrawn = spent.undrawn;
          }
        ]

    pub logout-IsSpent :
        (id now : ℕ) (token : String) (s : State)
        → IsSpent id s
        → IsSpent id (logout c db token now s)
    unfolding logout
    logout-IsSpent id now token s spent = elim (Option-cases (c.verify_refresh token now)) [
      | inl e ↦ subst (IsSpent id) (ground arith) spent
      | inr (p, e) ↦
          let f : RefreshToken → RefreshToken = λ x. record x { revoked_at = some now } in
          let law = lawful.row-update (λ x. x.id == p.token_id) f s.refresh_tokens id (λ x. refl) in
          let s1 : State = record s {
            refresh_tokens = db.refresh_tokens.update (λ x. x.id == p.token_id) f s.refresh_tokens;
          } in
          let spent1 : IsSpent id s1 = record {
            stored = if spent.stored.id == p.token_id then f spent.stored else spent.stored;
            at = law ∙ ap (Option.map (λ x. if x.id == p.token_id then f x else x)) spent.at;
            revoked = ground (arith, spent.revoked);
            undrawn = spent.undrawn;
          } in
          subst (IsSpent id) (ground arith) spent1
    ]

    pub register-IsSpent :
        (id now : ℕ) (email password full_name : String) (s : State)
        → IsSpent id s
        → IsSpent id (register c db email password full_name now s).1
    unfolding register
    register-IsSpent id now email password full_name s spent =
        let n = s.draws in
        let s1 : State = record s { draws = n + 1 } in
        let make : ℕ → User = λ k. plain_user c db email (c.hash_password n password) full_name k in
        let out = create_user c db make s1 in
        let calm : IsSpent id out.1 =
          Calm-IsSpent id s1 out.1 (create_user-Calm make s1)
            (Calm-IsSpent id s s1 (record { tokens = refl; draws = omega arith }) spent) in
        elim (Bool-cases (is_some (find_by_email c db email s))) [
          | inl taken ↦ subst (IsSpent id) (ground arith) spent
          | inr free ↦ elim (Result-cases out.0) [
            | inr (e, q) ↦ subst (IsSpent id) (ground arith) calm
            | inl (user, q) ↦
                subst (IsSpent id) (unfold issue_tokens in ground arith)
                  (issue_tokens-IsSpent id now user out.1 calm)
          ]
        ]

    pub login-IsSpent :
        (id now : ℕ) (email password : String) (s : State)
        → IsSpent id s
        → IsSpent id (login c db email password now s).1
    unfolding login
    login-IsSpent id now email password s spent = elim (Option-cases (find_by_email c db email s)) [
      | inl e ↦ subst (IsSpent id) (ground arith) spent
      | inr (user, e) ↦
          elim (Bool-cases (user.is_active && c.compare password user.password_hash)) [
            | inr refused ↦ subst (IsSpent id) (ground arith) spent
            | inl accepted ↦
                subst (IsSpent id) (ground arith) (issue_tokens-IsSpent id now user s spent)
          ]
    ]

    pub refresh-IsSpent :
        (id now : ℕ) (token : String) (s : State)
        → IsSpent id s
        → IsSpent id (refresh c db token now s).1
    unfolding refresh
    refresh-IsSpent id now token s spent = elim (Option-cases (c.verify_refresh token now)) [
      | inl e ↦ subst (IsSpent id) (ground arith) spent
      | inr (p, e) ↦ elim (Option-cases (find_token c db p.token_id s)) [
        | inl e1 ↦ subst (IsSpent id) (ground arith) spent
        | inr (x, e1) ↦ elim (Bool-cases (is_unusable c token now (some x))) [
          | inl unusable ↦ subst (IsSpent id) (ground arith) spent
          | inr usable ↦ elim (Option-cases (find_by_id c db p.sub s)) [
            | inl e2 ↦ subst (IsSpent id) (ground arith) spent
            | inr (user, e2) ↦ elim (Bool-cases user.is_active) [
              | inr inactive ↦ subst (IsSpent id) (ground arith) spent
              | inl active ↦
                  let s1 : State = record s {
                    refresh_tokens =
                        db.refresh_tokens.save (record x { revoked_at = some now })
                          s.refresh_tokens;
                  } in
                  subst (IsSpent id) (ground arith)
                    (issue_tokens-IsSpent id now user s1 (saved-IsSpent id now x s spent))
            ]
          ]
        ]
      ]
    ]

    pub invite_restaurant_staff-IsSpent :
        (id restaurant : ℕ) (email full_name : String) (role : UserRole) (s : State)
        → IsSpent id s
        → IsSpent id (invite_restaurant_staff c db email full_name restaurant role s).1
    unfolding invite_restaurant_staff create_user
    invite_restaurant_staff-IsSpent id restaurant email full_name role s spent =
        Calm-IsSpent id s _ (record { tokens = ground arith; draws = ground arith }) spent

    pub invite_restaurant_owner-IsSpent :
        (id restaurant now : ℕ) (email full_name : String) (s : State)
        → IsSpent id s
        → IsSpent id (invite_restaurant_owner c db email full_name restaurant now s).1
    unfolding invite_restaurant_owner create_user send_invite_email
    invite_restaurant_owner-IsSpent id restaurant now email full_name s spent =
        Calm-IsSpent id s _ (record { tokens = ground arith; draws = ground arith }) spent

    pub accept_invite-IsSpent :
        (id now : ℕ) (token password : String) (s : State)
        → IsSpent id s
        → IsSpent id (accept_invite c db token password now s).1
    unfolding accept_invite
    accept_invite-IsSpent id now token password s spent =
        elim (Option-cases (find_by_invite_token c db token s)) [
          | inl e ↦ subst (IsSpent id) (ground arith) spent
          | inr (x, e) ↦ elim (Bool-cases (is_lapsed x.invite_token_expires_at now)) [
            | inl lapsed ↦ subst (IsSpent id) (ground arith) spent
            | inr open_invite ↦
                let user : User = record x {
                  password_hash = c.hash_password s.draws password;
                  is_active = true;
                  invite_token = none;
                  invite_token_expires_at = none;
                } in
                let s1 : State = record s {
                  draws = s.draws + 1;
                  users = db.users.save user s.users;
                } in
                subst (IsSpent id) (ground arith) (
                  issue_tokens-IsSpent id now user s1
                    (Calm-IsSpent id s s1 (record { tokens = refl; draws = omega arith }) spent))
          ]
        ]
