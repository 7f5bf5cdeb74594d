-- ===== src/Handler/Post.antt =====
-- internal/handler/post_handler.go and search_handler.go.
use pluto_feed.Service
use pluto_feed.Prelude.{[], codes, bytes_eq, if◌then◌else◌}
use pluto_feed.Prelude.Int.{ℤ, pos}
use pluto_feed.Apierror.{answer, respond_ok}
use pluto_feed.Service.Post.{CreateInput}
use pluto_feed.Http.{Handler, Deps, in_world, nil, post, posts, CreatePostReq}
use pluto_feed.Handler.Params.{must_uid, with_path_id, bind_json, viewer_uid}

abbrev pub input_of : CreatePostReq → CreateInput
input_of req = record { image_urls = req.image_urls; content = req.content; tags = req.tags }

module _ (d : Deps) where
  abbrev pub create_with : ℤ → CreatePostReq → Handler
  create_with uid req ctx s =
      answer post (in_world (Service.Post.create d.sql uid (input_of req)) s)

  unfoldable pub create : Handler
  create = must_uid (λ uid. bind_json d.binders.post (create_with uid))

  unfoldable pub get : Handler
  get = with_path_id (λ id ctx s.
      answer post
        (in_world (Service.Post.get d.sql d.post_json d.user_json d.cache (viewer_uid ctx) id) s))

  unfoldable pub delete : Handler
  delete = must_uid (λ uid.
      with_path_id
        (λ id ctx s. answer (λ _. nil) (in_world (Service.Post.delete d.sql d.cache uid id) s)))

  -- No word gives no posts.
  unfoldable pub search : Handler
  search ctx s =
      let q = ctx.request.query (codes "q") in
      if bytes_eq q []
      then (respond_ok (posts []), s)
      else answer posts
          (in_world (Service.Post.search d.sql d.trim_space (viewer_uid ctx) q (pos 0)) s)
