-- ===== src/Identity/Rotation.antt =====
-- A refresh token works once.
use ceylon_events.Common.{
  ℕ, ◌≤◌, ◌≡◌, ◌≢◌, refl, ◌∙◌, ap, subst, inl, inr, some, List, [], ◌∷◌, arith, ◌==◌, String, ok,
  err, unauthorized, IsRepository, find_one-key, no_clash, Option-cases, Bool-cases,
}
use ceylon_events.Shared.{UserRole}
use ceylon_events.Identity.Types.{
  RefreshToken, RefreshPayload, AuthTokens, Crypto, Database, State, Reason, refresh_token_revoked,
  invalid_refresh_token,
}
use ceylon_events.Identity.{
  register, login, refresh, logout, invite_restaurant_staff, invite_restaurant_owner, accept_invite,
  find_by_id, find_token, is_unusable,
}
use ceylon_events.Identity.Spent.{
  token_row, IsSpent, register-IsSpent, login-IsSpent, refresh-IsSpent, logout-IsSpent,
  invite_restaurant_staff-IsSpent, invite_restaurant_owner-IsSpent, accept_invite-IsSpent,
  issue_tokens-IsSpent,
}

-- The requests that the service serves, with the time of each.
pub data Request : Type 0 where
  registers : String → String → String → ℕ → Request
  logs_in : String → String → ℕ → Request
  refreshes : String → ℕ → Request
  logs_out : String → ℕ → Request
  invites_staff : String → String → ℕ → UserRole → Request
  invites_owner : String → String → ℕ → ℕ → Request
  accepts : String → String → ℕ → Request

module _ (c : Crypto) (db : Database) where
  pub serve : Request → State → State
  serve (registers email password full_name now) s =
      (register c db email password full_name now s).1
  serve (logs_in email password now) s = (login c db email password now s).1
  serve (refreshes token now) s = (refresh c db token now s).1
  serve (logs_out token now) s = logout c db token now s
  serve (invites_staff email full_name restaurant role) s =
      (invite_restaurant_staff c db email full_name restaurant role s).1
  serve (invites_owner email full_name restaurant now) s =
      (invite_restaurant_owner c db email full_name restaurant now s).1
  serve (accepts token password now) s = (accept_invite c db token password now s).1

  pub serve_all : List Request → State → State
  serve_all [] s = s
  serve_all (r ∷ rs) s = serve_all rs (serve r s)

  module _ (lawful : IsRepository (λ t. t.id) no_clash db.refresh_tokens) where
    serve_all-IsSpent :
        (id : ℕ) (rs : List Request) (s : State)
        → IsSpent c db id s
        → IsSpent c db id (serve_all rs s)
    unfolding serve serve_all
    serve_all-IsSpent id [] s spent = spent
    serve_all-IsSpent id (registers email password full_name now ∷ rs) s spent =
        serve_all-IsSpent id rs _
          (register-IsSpent c db lawful id now email password full_name s spent)
    serve_all-IsSpent id (logs_in email password now ∷ rs) s spent =
        serve_all-IsSpent id rs _ (login-IsSpent c db lawful id now email password s spent)
    serve_all-IsSpent id (refreshes token now ∷ rs) s spent =
        serve_all-IsSpent id rs _ (refresh-IsSpent c db lawful id now token s spent)
    serve_all-IsSpent id (logs_out token now ∷ rs) s spent =
        serve_all-IsSpent id rs _ (logout-IsSpent c db lawful id now token s spent)
    serve_all-IsSpent id (invites_staff email full_name restaurant role ∷ rs) s spent =
        serve_all-IsSpent id rs _
          (invite_restaurant_staff-IsSpent c db lawful id restaurant email full_name role s spent)
    serve_all-IsSpent id (invites_owner email full_name restaurant now ∷ rs) s spent =
        serve_all-IsSpent id rs _
          (invite_restaurant_owner-IsSpent c db lawful id restaurant now email full_name s spent)
    serve_all-IsSpent id (accepts token password now ∷ rs) s spent =
        serve_all-IsSpent id rs _ (accept_invite-IsSpent c db lawful id now token password s spent)

    -- A refresh that went through has spent its token.
    refresh-spends :
        (token : String) (now : ℕ) (p : RefreshPayload) (tokens : AuthTokens) (s s' : State)
        → c.verify_refresh token now ≡ some p
        → ((n : ℕ) → s.draws ≤ n → c.uuid n ≢ p.token_id)
        → refresh c db token now s ≡ (ok tokens, s')
        → IsSpent c db p.token_id s'
    unfolding refresh
    refresh-spends token now p tokens s s' verified undrawn h =
        elim (Option-cases (find_token c db p.token_id s)) [
          | inl e1 ↦ absurd (ground arith)
          | inr (x, e1) ↦ elim (Bool-cases (is_unusable c token now (some x))) [
            | inl unusable ↦ absurd (ground arith)
            | inr usable ↦ elim (Option-cases (find_by_id c db p.sub s)) [
              | inl e2 ↦ absurd (ground arith)
              | inr (user, e2) ↦ elim (Bool-cases user.is_active) [
                | inr inactive ↦ absurd (ground arith)
                | inl active ↦
                    let x' : RefreshToken = record x { revoked_at = some now } in
                    let (at, same) =
                      lawful.find_one-some (λ y. y.id == p.token_id) s.refresh_tokens x e1 in
                    let s1 : State = record s {
                      refresh_tokens = db.refresh_tokens.save x' s.refresh_tokens;
                    } in
                    let spent : IsSpent c db p.token_id s1 = record {
                      stored = x';
                      at = lawful.row-save x' s.refresh_tokens p.token_id ∙ rw same refl;
                      revoked = refl;
                      undrawn = undrawn;
                    } in
                    subst (IsSpent c db p.token_id) (ground arith)
                      (issue_tokens-IsSpent c db lawful p.token_id now user s1 spent)
              ]
            ]
          ]
        ]

    -- A refresh token that was used is of no use again: after any history of requests, at any time, a
    -- refresh with it is refused, and changes nothing. The payload of a token is taken to be the
    -- same whenever it verifies, and a UUID not to be drawn twice.
    pub refresh_once :
        (token : String) (now : ℕ) (p : RefreshPayload) (tokens : AuthTokens) (s s' : State)
        (rs : List Request) (later : ℕ)
        → c.verify_refresh token now ≡ some p
        → ((at : ℕ) (q : RefreshPayload) → c.verify_refresh token at ≡ some q → q ≡ p)
        → ((n : ℕ) → s.draws ≤ n → c.uuid n ≢ p.token_id)
        → refresh c db token now s ≡ (ok tokens, s')
        → let s'' = serve_all rs s' in
          (reason : Reason) × (refresh c db token later s'' ≡ (err (unauthorized reason), s''))
    unfolding refresh
    refresh_once token now p tokens s s' rs later verified stable undrawn h =
        let s'' = serve_all rs s' in
        let spent =
          serve_all-IsSpent p.token_id rs s'
            (refresh-spends token now p tokens s s' verified undrawn h) in
        elim (Option-cases (c.verify_refresh token later)) [
          | inl e ↦ (invalid_refresh_token, ground arith)
          | inr (q, e) ↦
              let same : q ≡ p = stable later q e in
              let found : find_token c db q.token_id s'' ≡ some spent.stored =
                find_one-key (λ t. t.id) lawful q.token_id s''.refresh_tokens
                ∙ ap (λ y. token_row y.token_id s'') same
                ∙ spent.at in
              (refresh_token_revoked, ground (arith, spent.revoked))
        ]
