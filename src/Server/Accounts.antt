-- ===== src/Server/Accounts.antt =====
-- The user service and the refresh service make steps.
use fincart.Prelude.{String, refl, ◌||◌}
use fincart.Prelude.Tests.{if-cases}
use fincart.Prelude.Int.{ℤ}
use fincart.Prelude.Texts.{Letters, is_nil}
use fincart.Store.Schema.{RefreshToken, Db}
use fincart.Store.Monad.{Result, ok, err, Env, Session, user_error, invalid_user}
use fincart.User.Model.{User, Bcrypt}
use fincart.User.Repository as Users
use fincart.User.Service.{normal_email, store_user, register, login_body, login}
use fincart.Auth.Tokens.{AuthEnv, time_now, generate_refresh_token, generate_token}
use fincart.Auth.Repository
use fincart.Auth.Service.{
  store_token, create_body, create, stored_token, exchange, refresh_body, refresh, revoke_body,
  revoke,
}
use fincart.Server.Kept.{Kept}
use fincart.Server.Steps.{
  Steps, Steps-still, Steps-fail, Steps-pure, Steps-statement, Steps-query, Steps-map_error,
  Steps->>=, Steps-if, Steps-return_if, Steps-within_transaction,
}

module _ {R : Db → Db → Type 0} (k : Kept R) (env : Env) where
  store_user-Steps : (email : String) (hash : Result String) → Steps R (store_user env email hash)
  unfolding store_user Users.create
  store_user-Steps email (err e) = Steps-fail k.step e
  store_user-Steps email (ok hash) =
      Steps-within_transaction k.step env
        (Steps-statement k.step env _ (k.user_inserted env.now email hash))

  pub register-Steps :
      (letters : Letters) (bcrypt : Bcrypt) (email password : String)
      → Steps R (register env letters bcrypt email password)
  unfolding register
  register-Steps letters bcrypt email password = record {
    at = λ s.
        let name = normal_email letters email in
        let hash = bcrypt.generate_from_password s.calls password in
        if-cases (λ (x : Result User × Session). R s.db x.1.db) (is_nil name || is_nil password)
          (err (user_error invalid_user), s) (store_user env name hash s) (λ off. k.step.same s.db)
          (λ on. (store_user-Steps name hash).at s);
  }

  login_body-Steps :
      (bcrypt : Bcrypt) (email password : String) → Steps R (login_body env bcrypt email password)
  unfolding login_body Users.get_by_email
  login_body-Steps bcrypt email password =
      Steps->>= k.step (Steps-map_error k.step _ (Steps-query k.step env _))
        (λ found. Steps->>= k.step (Steps-return_if k.step _ _) (λ _. Steps-pure k.step found.0))

  pub login-Steps :
      (letters : Letters) (bcrypt : Bcrypt) (email password : String)
      → Steps R (login env letters bcrypt email password)
  unfolding login
  login-Steps letters bcrypt email password = Steps-if k.step _ (Steps-fail k.step _) (
      Steps-within_transaction k.step env
        (login_body-Steps bcrypt (normal_email letters email) password))

  module _ (auth : AuthEnv) where
    time_now-Steps : Steps R (time_now auth)
    unfolding time_now
    time_now-Steps = Steps-still k.step (λ s. refl)

    generate_refresh_token-Steps : Steps R (generate_refresh_token auth)
    unfolding generate_refresh_token
    generate_refresh_token-Steps = Steps-still k.step (λ s. refl)

    generate_token-Steps :
        (user_id : ℤ) (role : String) → Steps R (generate_token auth user_id role)
    unfolding generate_token
    generate_token-Steps user_id role = Steps-still k.step (λ s. refl)

    store_token-Steps :
        (user_id : ℤ) (token : String) → Steps R (store_token env auth user_id token)
    unfolding store_token Repository.create
    store_token-Steps user_id token =
        Steps->>= k.step time_now-Steps
          (λ now. Steps-statement k.step env _ (k.token_inserted env.now user_id _ _))

    create_body-Steps :
        (user_id : ℤ) (role token : String) → Steps R (create_body env auth user_id role token)
    unfolding create_body
    create_body-Steps user_id role token =
        Steps->>= k.step (store_token-Steps user_id token) (λ _. generate_token-Steps user_id role)

    pub create-Steps : (user_id : ℤ) (role : String) → Steps R (create env auth user_id role)
    unfolding create
    create-Steps user_id role = Steps-if k.step _ (Steps-fail k.step _) (
        Steps->>= k.step generate_refresh_token-Steps (λ token.
          Steps->>= k.step
            (Steps-within_transaction k.step env (create_body-Steps user_id role token))
            (λ access. Steps-pure k.step _)))

    stored_token-Steps : (token : String) → Steps R (stored_token env auth token)
    unfolding stored_token Repository.get_by_hash
    stored_token-Steps token = Steps-map_error k.step _ (Steps-query k.step env _)

    revoke_row-Steps : (id : ℤ) → Steps R (Repository.revoke env id)
    unfolding Repository.revoke
    revoke_row-Steps id = Steps-statement k.step env _ (k.token_revoked env.now id)

    exchange-Steps : (stored : RefreshToken) → Steps R (exchange env auth stored)
    unfolding exchange Users.get_role_by_id
    exchange-Steps stored = Steps->>= k.step (Steps-query k.step env _) (λ role.
        Steps->>= k.step (revoke_row-Steps stored.id) (λ _.
          Steps->>= k.step generate_refresh_token-Steps (λ token.
            Steps->>= k.step (store_token-Steps stored.user_id token) (λ _.
              Steps->>= k.step (generate_token-Steps stored.user_id role)
                (λ access. Steps-pure k.step _)))))

    refresh_body-Steps : (token : String) → Steps R (refresh_body env auth token)
    unfolding refresh_body
    refresh_body-Steps token = Steps->>= k.step (stored_token-Steps token) (λ stored.
        Steps->>= k.step (Steps-return_if k.step _ _) (λ _.
          Steps->>= k.step time_now-Steps
            (λ now. Steps->>= k.step (Steps-return_if k.step _ _) (λ _. exchange-Steps stored))))

    pub refresh-Steps : (token : String) → Steps R (refresh env auth token)
    unfolding refresh
    refresh-Steps token =
        Steps-if k.step _ (Steps-fail k.step _)
          (Steps-within_transaction k.step env (refresh_body-Steps token))

    revoke_body-Steps : (token : String) → Steps R (revoke_body env auth token)
    unfolding revoke_body
    revoke_body-Steps token =
        Steps->>= k.step (stored_token-Steps token)
          (λ stored. Steps-if k.step _ (Steps-pure k.step tt) (revoke_row-Steps stored.id))

    pub revoke-Steps : (token : String) → Steps R (revoke env auth token)
    unfolding revoke
    revoke-Steps token =
        Steps-if k.step _ (Steps-fail k.step _)
          (Steps-within_transaction k.step env (revoke_body-Steps token))
