-- ===== src/Handler/Social.antt =====
-- internal/handler/social_handler.go: follows, and the page of a user.
use pluto_feed.Service
use pluto_feed.Prelude.{Bool, true, false, Bytes}
use pluto_feed.Prelude.Int.{ℤ}
use pluto_feed.Apierror.{answer, Act}
use pluto_feed.World.{World}
use pluto_feed.Service.Social.{FollowUserView}
use pluto_feed.Service.Views.{Page}
use pluto_feed.Http.{Handler, Deps, in_world, nil, follows, profile}
use pluto_feed.Handler.Params.{must_uid, with_path_id, limit_of, viewer_uid, cursor_of}

module _ (d : Deps) where
  unfoldable pub follow : Handler
  follow = must_uid (λ uid.
      with_path_id
        (λ id ctx s. answer (λ _. nil) (in_world (Service.Social.follow d.sql d.cache uid id) s)))

  unfoldable pub unfollow : Handler
  unfollow = must_uid (λ uid.
      with_path_id
        (λ id ctx s. answer (λ _. nil) (in_world (Service.Social.unfollow d.sql d.cache uid id) s)))

  abbrev pub page_of : Bool → ℤ → Bytes → ℤ → Act World (Page FollowUserView)
  page_of true uid cursor limit = Service.Social.list_following d.sql uid cursor limit
  page_of false uid cursor limit = Service.Social.list_followers d.sql uid cursor limit

  unfoldable pub list : Bool → Handler
  list following = with_path_id (λ uid ctx s.
      answer follows
        (in_world (page_of following uid (cursor_of ctx.request) (limit_of ctx.request)) s))

  unfoldable pub list_following : Handler
  list_following = list true

  unfoldable pub list_followers : Handler
  list_followers = list false

  unfoldable pub get_profile : Handler
  get_profile = with_path_id (λ target_id ctx s. answer profile (
      in_world
        (Service.Profile.get d.sql (viewer_uid ctx) target_id (cursor_of ctx.request)
          (limit_of ctx.request))
        s))
