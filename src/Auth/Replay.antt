-- ===== src/Auth/Replay.antt =====
-- A refresh token that has been exchanged, or logged out, is of no further use.
use fincart.Prelude.{
  ℕ, suc, String, ◌≡◌, refl, sym, ◌∙◌, ap, subst, true, false, some, arith, inl, inr,
}
use fincart.Prelude.Tests.{Bool-cases}
use fincart.Prelude.Int.{ℤ, eqb_ℤ_iff}
use fincart.Prelude.Texts.{is_nil}
use fincart.Store.Schema.{RefreshToken, Db}
use fincart.Store.Rows.{find_where}
use fincart.Store.Rows.Laws.{find_where-update_found, find_where-append}
use fincart.Store.Monad.{Result, ok, err, auth_error, AuthError, Env, Session}
use fincart.Store.Inversion.{
  pure-eq-ok, guard-eq-ok, guard_of_false, carried, >>=_of_ok, return_if_of_true, statement_of_ok,
}
use fincart.Store.Stepping.{statement-carried, map_error_of_ok}
use fincart.Database.{within_transaction}
use fincart.Database.Atomic.{within_transaction-eq-ok, within_transaction_of_err}
use fincart.Auth.Tokens.{AuthEnv, hash_refresh_token}
use fincart.Auth.Repository as Repository
use fincart.Auth.Repository.{has_hash, is_live, found, revoke_token}
use fincart.Auth.Service.{
  hide_unknown, stored_token, is_revoked, refresh_body, refresh, revoke_body, revoke,
}
use fincart.Auth.Rotation.{with_token, with_revoked, >>=-stored_token, refresh_lem}

-- A row is stored under the hash, and it is revoked.
abbrev pub IsSpent : AuthEnv → String → Db → Type 0
IsSpent auth token db =
    (t : RefreshToken) × (find_where (has_hash (auth.digest token)) db.tokens ≡ some t)
    × (is_revoked t ≡ true)

is_live_lem : (t : RefreshToken) → is_revoked t ≡ false → is_live t.id t ≡ true
unfolding is_revoked
is_live_lem t h = ground (arith, eqb_ℤ_iff t.id t.id)

-- Revoking the row that is found under a hash.
revoked-IsSpent :
    (auth : AuthEnv) (token : String) (now : ℕ) (db : Db) (t : RefreshToken)
    → find_where (has_hash (auth.digest token)) db.tokens ≡ some t
    → is_revoked t ≡ false
    → IsSpent auth token (with_revoked now t.id db)
unfolding is_revoked
revoked-IsSpent auth token now db t row live = (
  record t { revoked_at = some now },
  find_where-update_found (has_hash (auth.digest token)) (is_live t.id)
      (λ t. record t { revoked_at = some now }) db.tokens t (λ y. refl) (is_live_lem t live) row,
  refl,
)

stored_token_succeeds :
    (env : Env) (auth : AuthEnv) (token : String) (s : Session) (t : RefreshToken)
    → env.fault s.calls ≡ false
    → find_where (has_hash (auth.digest token)) s.db.tokens ≡ some t
    → stored_token env auth token s ≡ (ok t, carried s s.db)
unfolding stored_token Repository.get_by_hash hash_refresh_token found
stored_token_succeeds env auth token s t fine row =
    map_error_of_ok hide_unknown _ s (carried s s.db) t
      (statement_of_ok env _ s t s.db fine (rw row refl))

refresh_body_refuses :
    (env : Env) (auth : AuthEnv) (token : String) (s : Session)
    → env.fault s.calls ≡ false
    → IsSpent auth token s.db
    → refresh_body env auth token s
      ≡ (err (auth_error AuthError.refresh_token_revoked), carried s s.db)
unfolding refresh_body
refresh_body_refuses env auth token s fine (t, row, spent) =
    >>=_of_ok (stored_token env auth token) _ s (carried s s.db) t
      (stored_token_succeeds env auth token s t fine row)
    ∙ return_if_of_true (is_revoked t) (auth_error AuthError.refresh_token_revoked) _
        (carried s s.db) spent

-- A spent token is refused whenever the calls go through.
pub spent-refused :
    (env : Env) (auth : AuthEnv) (token : String) (s : Session)
    → ((n : ℕ) → env.fault n ≡ false)
    → is_nil token ≡ false
    → IsSpent auth token s.db
    → (refresh env auth token s).0 ≡ err (auth_error AuthError.refresh_token_revoked)
unfolding refresh
spent-refused env auth token s fine filled spent =
    ap (λ (x : Result (String × String) × Session). x.0)
      (guard_of_false (is_nil token) _ (within_transaction env (refresh_body env auth token)) s
        filled)
    ∙ within_transaction_of_err env (refresh_body env auth token) s (carried begun begun.db)
        (auth_error AuthError.refresh_token_revoked) fine
        (refresh_body_refuses env auth token begun (fine begun.calls) spent)
  where
    begun : Session
    begun = record s { calls = suc s.calls }

exchanged-IsSpent :
    (auth : AuthEnv) (token : String) (now : ℕ) (user_id : ℤ) (hash : String) (expires_at : ℕ)
    (db : Db)
    → IsSpent auth token db
    → IsSpent auth token (with_token now user_id hash expires_at db)
exchanged-IsSpent auth token now user_id hash expires_at db (t, row, spent) =
    (t, find_where-append (has_hash (auth.digest token)) db.tokens _ t row, spent)

refresh-filled :
    (env : Env) (auth : AuthEnv) (token access fresh : String) (s s' : Session)
    → refresh env auth token s ≡ (ok (access, fresh), s')
    → is_nil token ≡ false
unfolding refresh
refresh-filled env auth token access fresh s s' h =
    (guard-eq-ok (is_nil token) _ (within_transaction env (refresh_body env auth token)) s s'
      (access, fresh) h).0

-- An exchange spends the token.
pub refresh-spends :
    (env : Env) (auth : AuthEnv) (token access fresh : String) (s s' : Session)
    → refresh env auth token s ≡ (ok (access, fresh), s')
    → (is_nil token ≡ false) × IsSpent auth token s'.db
refresh-spends env auth token access fresh s s' h =
    let (t, (row, live, _), (_, _, _, _, after)) = refresh_lem env auth token access fresh s s' h in
    (
      refresh-filled env auth token access fresh s s' h,
      subst (IsSpent auth token) (sym after) (
          exchanged-IsSpent auth token env.now t.user_id _ _ (with_revoked env.now t.id s.db)
            (revoked-IsSpent auth token env.now s.db t row live)),
    )

revoke_body-eq-ok :
    (env : Env) (auth : AuthEnv) (token : String) (s s' : Session)
    → revoke_body env auth token s ≡ (ok tt, s')
    → IsSpent auth token s'.db
unfolding revoke_body Repository.revoke revoke_token
revoke_body-eq-ok env auth token s s' h =
    let (t, row, rest) = >>=-stored_token env auth token _ s s' tt h in
    elim (Bool-cases (is_revoked t)) [
      | inl spent ↦
          let (_, same) = pure-eq-ok tt tt (carried s s.db) s' (rw spent at rest) in
          subst (λ (s : Session). IsSpent auth token s.db) same (t, row, spent)
      | inr live ↦
          let (_, same) =
            statement-carried env (revoke_token env.now t.id) (carried s s.db) s' tt
              (rw live at rest) in
          subst (λ (s : Session). IsSpent auth token s.db) (sym same)
            (revoked-IsSpent auth token env.now s.db t row live)
    ]

-- A logout spends the token.
pub revoke-spends :
    (env : Env) (auth : AuthEnv) (token : String) (s s' : Session)
    → revoke env auth token s ≡ (ok tt, s')
    → (is_nil token ≡ false) × IsSpent auth token s'.db
unfolding revoke
revoke-spends env auth token s s' h =
    let (filled, h0) =
      guard-eq-ok (is_nil token) _ (within_transaction env (revoke_body env auth token)) s s' tt
        h in
    let begun : Session = record s { calls = suc s.calls } in
    let (t, body, same, _) = within_transaction-eq-ok env (revoke_body env auth token) s s' tt h0 in
    (filled, subst (IsSpent auth token) (sym same) (revoke_body-eq-ok env auth token begun t body))
