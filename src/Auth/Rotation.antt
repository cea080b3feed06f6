-- ===== src/Auth/Rotation.antt =====
-- What `Create`, `Refresh` and `Revoke` leave in the table of refresh tokens.
use fincart.Prelude.{
  ℕ, suc, String, [], ◌∷◌, ◌++◌, ◌≡◌, sym, ◌∙◌, ap, subst, true, false, Option, none, some, arith,
  ◌+◌, not,
}
use fincart.Prelude.Tests.{ltb, true_of_not}
use fincart.Prelude.Int.{ℤ}
use fincart.Prelude.Texts.{is_nil}
use fincart.Store.Schema.{RefreshToken, Db}
use fincart.Store.Rows.{find_where, update_where}
use fincart.Store.Monad.{ok, Env, Session, M, ◌>>=◌}
use fincart.Store.Inversion.{pure-eq-ok, guard-eq-ok, carried}
use fincart.Store.Stepping.{
  map_error-eq-ok, statement-carried, >>=-step, >>=-statement, >>=-answer, >>=-return_if,
}
use fincart.Database.{within_transaction}
use fincart.Database.Atomic.{within_transaction-eq-ok}
use fincart.User.Repository.{role_of, has_id}
use fincart.User.Repository as Users
use fincart.Auth.Tokens.{
  AuthEnv, time_now, generate_refresh_token, hash_refresh_token, generate_token, claims_for,
  refresh_token_lifetime,
}
use fincart.Auth.Repository.{has_hash, is_live, new_row, insert_token, revoke_token, found}
use fincart.Auth.Repository as Repository
use fincart.Auth.Service.{
  hide_unknown, stored_token, store_token, is_revoked, exchange, refresh_body, refresh,
}

pub found_lem : (o : Option RefreshToken) (t : RefreshToken) → found o ≡ ok t → o ≡ some t
unfolding found
found_lem none t h = cc
found_lem (some x) t h = cc

-- The table with one more row.
abbrev pub with_token : ℕ → ℤ → String → ℕ → Db → Db
with_token now user_id hash expires_at db = record db {
  tokens = db.tokens ++ new_row db.token_seq now user_id hash expires_at ∷ [];
  token_seq = suc db.token_seq;
}

pub insert_token_lem :
    (now : ℕ) (user_id : ℤ) (hash : String) (expires_at : ℕ) (db : Db) (u : Unit {0})
    → (insert_token now user_id hash expires_at db).0 ≡ ok u
    → (insert_token now user_id hash expires_at db).1 ≡ with_token now user_id hash expires_at db
unfolding insert_token
insert_token_lem now user_id hash expires_at db u h = ground arith

-- The first statement of `Refresh` and of `Revoke`.
pub >>=-stored_token :
    {B : Type 0} (env : Env) (auth : AuthEnv) (token : String) (k : RefreshToken → M B)
    (s s' : Session) (b : B)
    → (stored_token env auth token >>= k) s ≡ (ok b, s')
    → (t : RefreshToken) × (find_where (has_hash (auth.digest token)) s.db.tokens ≡ some t)
      × (k t (carried s s.db) ≡ (ok b, s'))
unfolding stored_token Repository.get_by_hash hash_refresh_token
>>=-stored_token env auth token k s s' b h =
    >>=-step (λ t. find_where (has_hash (auth.digest token)) s.db.tokens ≡ some t) (carried s s.db)
      (stored_token env auth token) k s s' b
      (λ t after e.
        let (row, same) =
          statement-carried env _ s after t (map_error-eq-ok hide_unknown _ s after t e) in
        (found_lem _ t row, same))
      h

pub >>=-time_now :
    {B : Type 0} (auth : AuthEnv) (k : ℕ → M B) (s s' : Session) (b : B)
    → (time_now auth >>= k) s ≡ (ok b, s')
    → k (auth.clock s.calls) s ≡ (ok b, s')
unfolding ◌>>=◌ time_now
>>=-time_now auth k s s' b h = h

-- The session after the row of a new token has been written.
abbrev pub with_row : Env → AuthEnv → ℤ → String → Session → Session
with_row env auth user_id token s = carried s (
    with_token env.now user_id (auth.digest token) (auth.clock s.calls + refresh_token_lifetime)
      s.db)

store_token-eq-ok :
    (env : Env) (auth : AuthEnv) (user_id : ℤ) (token : String) (s s' : Session) (u : Unit {0})
    → store_token env auth user_id token s ≡ (ok u, s')
    → s' ≡ with_row env auth user_id token s
unfolding store_token hash_refresh_token Repository.create
store_token-eq-ok env auth user_id token s s' u h =
    let at = auth.clock s.calls + refresh_token_lifetime in
    let (written, same) =
      statement-carried env (insert_token env.now user_id (auth.digest token) at) s s' u
        (>>=-time_now auth _ s s' u h) in
    same ∙ ap (carried s) (insert_token_lem env.now user_id (auth.digest token) at s.db u written)

pub >>=-store_token :
    {B : Type 0} (env : Env) (auth : AuthEnv) (user_id : ℤ) (token : String) (k : Unit {0} → M B)
    (s s' : Session) (b : B)
    → (store_token env auth user_id token >>= k) s ≡ (ok b, s')
    → k tt (with_row env auth user_id token s) ≡ (ok b, s')
>>=-store_token env auth user_id token k s s' b h =
    (>>=-step (λ u. Unit {0}) (with_row env auth user_id token s)
      (store_token env auth user_id token) k s s' b
      (λ u t e. (tt, store_token-eq-ok env auth user_id token s t u e)) h).2

-- The table after a token has been revoked.
abbrev pub with_revoked : ℕ → ℤ → Db → Db
with_revoked now id db = record db {
  tokens = update_where (is_live id) (λ t. record t { revoked_at = some now }) db.tokens;
}

-- What a token has been exchanged for, after c calls to the database.
abbrev pub Exchanged : Env → AuthEnv → RefreshToken → ℕ → Db → String → String → Db → Type 0
Exchanged env auth t c db access fresh db' =
    (role : String) × (role_of (find_where (has_id t.user_id) db.users) ≡ ok role)
    × (auth.random (suc (suc c)) ≡ ok fresh)
    × (auth.jwt.sign (claims_for t.user_id role (auth.clock (suc (suc (suc c))))) ≡ ok access)
    × (db'
        ≡ with_token env.now t.user_id (auth.digest fresh)
            (auth.clock (suc (suc c)) + refresh_token_lifetime) (with_revoked env.now t.id db))

exchange-eq-ok :
    (env : Env) (auth : AuthEnv) (t : RefreshToken) (access fresh : String) (s s' : Session)
    → exchange env auth t s ≡ (ok (access, fresh), s')
    → Exchanged env auth t s.calls s.db access fresh s'.db
unfolding exchange generate_refresh_token generate_token Repository.revoke revoke_token
    Users.get_role_by_id
exchange-eq-ok env auth t access fresh s s' h =
    let (role, known, h1) = >>=-statement env _ _ s s' (access, fresh) h in
    let s1 = carried s s.db in
    let (_, _, h2) = >>=-statement env _ _ s1 s' (access, fresh) h1 in
    let s2 = carried s1 (with_revoked env.now t.id s.db) in
    let (f, drawn, h3) = >>=-answer (λ s. auth.random s.calls) _ s2 s' (access, fresh) h2 in
    let h4 = >>=-store_token env auth t.user_id f _ s2 s' (access, fresh) h3 in
    let s3 = with_row env auth t.user_id f s2 in
    let (a, signed, h5) =
      >>=-answer (λ s. auth.jwt.sign (claims_for t.user_id role (auth.clock s.calls))) _ s3 s'
        (access, fresh) h4 in
    let (pair, same) = pure-eq-ok (a, f) (access, fresh) s3 s' h5 in
    (
      role,
      known,
      drawn ∙ ap ok (ap (λ (p : String × String). p.1) pair),
      signed ∙ ap ok (ap (λ (p : String × String). p.0) pair),
      ap (λ (s : Session). s.db) (sym same)
          ∙ ap
              (λ f.
                with_token env.now t.user_id (auth.digest f)
                  (auth.clock s2.calls + refresh_token_lifetime) s2.db)
              (ap (λ (p : String × String). p.1) pair),
    )

-- What a token that can be exchanged is, at a moment of the clock.
abbrev pub Accepted : AuthEnv → String → ℕ → Db → RefreshToken → Type 0
Accepted auth token moment db t =
    (find_where (has_hash (auth.digest token)) db.tokens ≡ some t)
    × (is_revoked t ≡ false)
    × (ltb (auth.clock moment) t.expires_at ≡ true)

refresh_body-eq-ok :
    (env : Env) (auth : AuthEnv) (token access fresh : String) (s s' : Session)
    → refresh_body env auth token s ≡ (ok (access, fresh), s')
    → (t : RefreshToken) × Accepted auth token (suc s.calls) s.db t
      × Exchanged env auth t (suc s.calls) s.db access fresh s'.db
unfolding refresh_body
refresh_body-eq-ok env auth token access fresh s s' h =
    let s1 = carried s s.db in
    let (t, row, h1) = >>=-stored_token env auth token _ s s' (access, fresh) h in
    let (live, h2) = >>=-return_if (is_revoked t) _ _ s1 s' (access, fresh) h1 in
    let h3 = >>=-time_now auth _ s1 s' (access, fresh) h2 in
    let (current, h4) =
      >>=-return_if (not (ltb (auth.clock s1.calls) t.expires_at)) _ _ s1 s' (access, fresh) h3 in
    (t, (row, live, true_of_not _ current), exchange-eq-ok env auth t access fresh s1 s' h4)

-- `Refresh` returns tokens only for a refresh token that is stored, not revoked and not expired. It
-- has then revoked that token, and stored one new token of the same user for 30 days.
pub refresh_lem :
    (env : Env) (auth : AuthEnv) (token access fresh : String) (s s' : Session)
    → refresh env auth token s ≡ (ok (access, fresh), s')
    → (t : RefreshToken) × Accepted auth token (suc (suc s.calls)) s.db t
      × Exchanged env auth t (suc (suc s.calls)) s.db access fresh s'.db
unfolding refresh
refresh_lem env auth token access fresh s s' h =
    let (_, h0) =
      guard-eq-ok (is_nil token) _ (within_transaction env (refresh_body env auth token)) s s'
        (access, fresh) h in
    let begun : Session = record s { calls = suc s.calls } in
    let (t, body, same, _) =
      within_transaction-eq-ok env (refresh_body env auth token) s s' (access, fresh) h0 in
    let (stored, accepted, exchanged) =
      refresh_body-eq-ok env auth token access fresh begun t body in
    (
      stored,
      accepted,
      subst (λ db. Exchanged env auth stored (suc begun.calls) s.db access fresh db) (sym same)
          exchanged,
    )
