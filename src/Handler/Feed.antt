-- ===== src/Handler/Feed.antt =====
-- internal/handler/feed_handler.go and health.go.
use pluto_feed.Service
use pluto_feed.Apierror.{answer, respond_ok}
use pluto_feed.Http.{Handler, Deps, in_world, feed, status_up}
use pluto_feed.Handler.Params.{must_uid, limit_of, viewer_uid, cursor_of}

module _ (d : Deps) where
  unfoldable pub list : Handler
  list ctx s = answer feed (
      in_world
        (Service.Feed.list d.sql (viewer_uid ctx) (cursor_of ctx.request) (limit_of ctx.request)) s)

  unfoldable pub list_following : Handler
  list_following = must_uid (λ uid ctx s. answer feed (
      in_world
        (Service.Feed.list_following_feed d.sql uid (cursor_of ctx.request) (limit_of ctx.request))
        s))

  unfoldable pub list_hot : Handler
  list_hot ctx s = answer feed (
      in_world
        (Service.Feed.list_hot d.sql d.format_minute d.hot_json d.cache (viewer_uid ctx)
          (limit_of ctx.request))
        s)

unfoldable pub health_ok : Handler
health_ok ctx s = (respond_ok status_up, s)
