-- ===== src/Http/Users.antt =====
-- `user.Handler` (internal/user/handler.go): registration, login, refresh and logout.
use fincart.Prelude.Tests.{if◌then◌else◌}
use fincart.Prelude.Texts.{is_nil}
use fincart.Store.Monad.{
  Error, user_error, UserError, auth_error, AuthError, Result, ok, err, Session,
}
use fincart.User.Model.{User}
use fincart.User.Service as Service
use fincart.Auth.Service as Refreshing
use fincart.Http.Message.{
  World, Response, Handler, nothing, problem, user, signed_in, tokens, reply, respond, require,
  cause,
}
use fincart.Http.Orders.{invalid_body, internal_error}

abbrev pub invalid_refresh_token : Response
invalid_refresh_token = reply 401 (problem "invalid_refresh_token")

unfoldable pub register_problem : Error → Response
register_problem (user_error UserError.invalid_user) = reply 400 (problem "invalid_user")
register_problem _ = internal_error

unfoldable pub login_problem : Error → Response
login_problem (user_error UserError.invalid_credentials) = reply 401 (problem "invalid_credentials")
login_problem _ = internal_error

unfoldable pub refresh_problem : Error → Response
refresh_problem (auth_error AuthError.invalid_refresh_token) = invalid_refresh_token
refresh_problem (auth_error AuthError.refresh_token_expired) = invalid_refresh_token
refresh_problem (auth_error AuthError.refresh_token_revoked) = invalid_refresh_token
refresh_problem _ = internal_error

unfoldable pub logout_problem : Error → Response
logout_problem (auth_error AuthError.invalid_refresh_token) = invalid_refresh_token
logout_problem _ = internal_error

unfoldable pub register : World → Handler
register w r = require (w.decode.credentials r.body) invalid_body (λ request.
    respond (Service.register w.env w.letters w.bcrypt request.0 request.1)
      (λ u. reply 201 (user u)) (λ e. register_problem (cause e)))

-- A second call of a service, whose error has a response of its own.
unfoldable pub sign_in : World → User → Session → Response × Session
sign_in w u =
    respond (Refreshing.create w.env w.auth u.id u.role)
      (λ pair. reply 200 (signed_in u pair.0 pair.1)) (λ e. internal_error)

unfoldable pub after_login : World → Result User × Session → Response × Session
after_login w (err e, s) = (login_problem (cause e), s)
after_login w (ok u, s) = sign_in w u s

unfoldable pub login : World → Handler
login w r =
    require (w.decode.credentials r.body) invalid_body
      (λ request s. after_login w (Service.login w.env w.letters w.bcrypt request.0 request.1 s))

unfoldable pub refresh : World → Handler
refresh w r = require (w.decode.refresh_token r.body) invalid_body (λ refresh_token s.
    if is_nil refresh_token
    then (invalid_refresh_token, s)
    else respond (Refreshing.refresh w.env w.auth refresh_token)
        (λ pair. reply 200 (tokens pair.0 pair.1)) (λ e. refresh_problem (cause e)) s)

unfoldable pub logout : World → Handler
logout w r = require (w.decode.refresh_token r.body) invalid_body (λ refresh_token s.
    if is_nil refresh_token
    then (reply 400 (problem "invalid_refresh_token"), s)
    else respond (Refreshing.revoke w.env w.auth refresh_token) (λ _. reply 204 nothing)
        (λ e. logout_problem (cause e)) s)
