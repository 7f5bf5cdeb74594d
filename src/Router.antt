-- ===== src/Router.antt =====
-- internal/router/router.go: the routes, the middlewares in front of their handlers, and the answer to a
-- request. How gin finds the route of a request is not modelled, nor are its logger and recovery, nor the
-- static files.
pub mod Guarded
use pluto_feed.Prelude.{
  Bool, true, false, ◌&&◌, Option, none, some, List, [], ◌∷◌, ◌++◌, String, if◌then◌else◌,
}
use pluto_feed.Prelude.Int.{ℤ, pos, ltb_ℤ}
use pluto_feed.Middleware.{gin_auth, optional_auth, rate_limit_ip, rate_limit_user, uid_from, chain}
use pluto_feed.Http.{Handler, Deps}
use pluto_feed.Handler.Auth
use pluto_feed.Handler.Feed
use pluto_feed.Handler.Feed.{health_ok}
use pluto_feed.Handler.Interaction
use pluto_feed.Handler.Post
use pluto_feed.Handler.Social
use pluto_feed.Handler.Upload

pub data Method : Type 0 where
  get post delete : Method

-- Which middlewares a route has: none, the optional login, those of the group `authed`, or those of
-- `authedWrite`.
pub data Access : Type 0 where
  public viewed authed authed_write : Access

pub record Route : Type 0 where
  pub method : Method
  pub path : String
  pub access : Access
  pub handler : Handler

abbrev pub route : Access → Method → String → Handler → Route
route access method path handler = record {
  method = method;
  path = path;
  access = access;
  handler = handler;
}

abbrev pub minute : ℤ
minute = pos 60_000_000_000

module _ (d : Deps) where
  abbrev pub auth_routes : List Route
  auth_routes =
      route public get "/healthz" health_ok
      ∷ route public post "/api/v1/auth/register" (Auth.register d)
      ∷ route public post "/api/v1/auth/login" (Auth.login d)
      ∷ route public post "/api/v1/auth/refresh" (Auth.refresh d)
      ∷ route authed get "/api/v1/me" (Auth.me d)
      ∷ route authed post "/api/v1/auth/logout" (Auth.logout d)
      ∷ route authed post "/api/v1/upload" (Upload.upload d)
      ∷ []

  abbrev pub post_routes : List Route
  post_routes =
      route authed_write post "/api/v1/posts" (Post.create d)
      ∷ route authed_write delete "/api/v1/posts/:id" (Post.delete d)
      ∷ route viewed get "/api/v1/posts/:id" (Post.get d)
      ∷ route authed_write post "/api/v1/posts/:id/like" (Interaction.like d)
      ∷ route authed_write delete "/api/v1/posts/:id/like" (Interaction.unlike d)
      ∷ route authed_write post "/api/v1/posts/:id/comments" (Interaction.comment d)
      ∷ route authed_write delete "/api/v1/comments/:id" (Interaction.delete_comment d)
      ∷ route public get "/api/v1/posts/:id/comments" (Interaction.list_comments d)
      ∷ []

  abbrev pub feed_routes : List Route
  feed_routes =
      route viewed get "/api/v1/feed" (Feed.list d)
      ∷ route viewed get "/api/v1/feed/hot" (Feed.list_hot d)
      ∷ route viewed get "/api/v1/search" (Post.search d)
      ∷ route authed get "/api/v1/feed/following" (Feed.list_following d)
      ∷ route authed post "/api/v1/users/:id/follow" (Social.follow d)
      ∷ route authed delete "/api/v1/users/:id/follow" (Social.unfollow d)
      ∷ route public get "/api/v1/users/:id/following" (Social.list_following d)
      ∷ route public get "/api/v1/users/:id/followers" (Social.list_followers d)
      ∷ route public get "/api/v1/users/:id/profile" (Social.get_profile d)
      ∷ []

  -- The order of registration within a part is kept.
  abbrev pub routes : List Route
  routes = auth_routes ++ post_routes ++ feed_routes

  abbrev pub guards : Access → List (Handler → Handler)
  guards public = []
  guards viewed = optional_auth d.jwt d.manager ∷ []
  guards authed = gin_auth d.jwt d.manager ∷ []
  guards authed_write =
      gin_auth d.jwt d.manager ∷ rate_limit_user d.rdb uid_from d.rate_user_per_min minute ∷ []

  -- The limit by address is in front of every route, when it is switched on.
  abbrev pub global : List (Handler → Handler)
  global =
      if ltb_ℤ (pos 0) d.rate_ip_per_min then rate_limit_ip d.rdb d.rate_ip_per_min ∷ [] else []

  -- What answers a request of a route.
  unfoldable pub serve : Route → Handler
  serve r = chain r.handler (global ++ guards r.access)
