-- ===== src/Handler/Auth.antt =====
-- internal/handler/auth_handler.go.
use pluto_feed.Service
use pluto_feed.Prelude.{bytes_eq, [], if◌then◌else◌}
use pluto_feed.Apierror.{bad_request, fail, answer}
use pluto_feed.Http.{
  Handler, Deps, in_world, nil, tokens, me as me_payload, RegisterReq, LoginReq, RefreshReq,
  LogoutReq,
}
use pluto_feed.Handler.Params.{must_uid, bind_json}

module _ (d : Deps) where
  abbrev pub register_with : RegisterReq → Handler
  register_with req ctx s =
      answer (λ _. nil)
        (in_world
          (Service.Auth.register d.digest d.uid_json d.cache d.sql d.bcrypt d.jwt d.manager
            req.nickname req.password)
          s)

  unfoldable pub register : Handler
  register = bind_json d.binders.register register_with

  abbrev pub login_with : LoginReq → Handler
  login_with req ctx s = answer tokens (
      in_world
        (Service.Auth.login d.digest d.uid_json d.cache d.sql d.bcrypt d.jwt d.manager d.trim_space
          ctx.request.moment req.nickname req.password)
        s)

  unfoldable pub login : Handler
  login = bind_json d.binders.login login_with

  abbrev pub refresh_with : RefreshReq → Handler
  refresh_with req ctx s = answer tokens (
      in_world
        (Service.Auth.refresh d.digest d.uid_json d.cache d.sql d.bcrypt d.jwt d.manager
          ctx.request.moment req.refresh_token)
        s)

  unfoldable pub refresh : Handler
  refresh = bind_json d.binders.refresh refresh_with

  abbrev pub logout_with : LogoutReq → Handler
  logout_with req ctx s =
      if bytes_eq req.refresh_token []
      then (fail bad_request, s)
      else answer (λ _. nil)
          (in_world
            (Service.Auth.logout d.digest d.uid_json d.cache d.sql d.bcrypt d.jwt d.manager
              req.refresh_token)
            s)

  unfoldable pub logout : Handler
  logout = bind_json d.binders.logout logout_with

  unfoldable pub me : Handler
  me = must_uid (λ uid ctx s.
      answer me_payload (
        in_world (Service.Auth.me d.digest d.uid_json d.cache d.sql d.bcrypt d.jwt d.manager uid)
          s))
