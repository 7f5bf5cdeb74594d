-- ===== src/Handler/Interaction.antt =====
-- internal/handler/interaction_handler.go.
use pluto_feed.Service
use pluto_feed.Apierror.{answer}
use pluto_feed.Prelude.Int.{ℤ}
use pluto_feed.Http.{
  Handler, Deps, in_world, nil, comment as comment_payload, comments, CreateCommentReq,
}
use pluto_feed.Handler.Params.{must_uid, with_path_id, bind_json, limit_of, cursor_of}

module _ (d : Deps) where
  unfoldable pub like : Handler
  like = must_uid (λ uid. with_path_id (λ id ctx s.
      answer (λ _. nil)
        (in_world (Service.Interaction.like d.sql d.event_json d.format_minute d.cache uid id) s)))

  unfoldable pub unlike : Handler
  unlike = must_uid (λ uid. with_path_id (λ id ctx s.
      answer (λ _. nil)
        (in_world (Service.Interaction.unlike d.sql d.event_json d.format_minute d.cache uid id)
          s)))

  abbrev pub comment_with : ℤ → ℤ → CreateCommentReq → Handler
  comment_with uid id req ctx s = answer comment_payload (
      in_world
        (Service.Interaction.comment d.sql d.event_json d.format_minute d.cache uid id req.content)
        s)

  unfoldable pub comment : Handler
  comment = must_uid (λ uid. with_path_id (λ id. bind_json d.binders.comment (comment_with uid id)))

  unfoldable pub list_comments : Handler
  list_comments = with_path_id (λ id ctx s. answer comments (
      in_world
        (Service.Interaction.list_comments d.sql id (cursor_of ctx.request) (limit_of ctx.request))
        s))

  -- It parses the id of the comment by itself, like `pathID`.
  unfoldable pub delete_comment : Handler
  delete_comment = must_uid (λ uid. with_path_id (λ id ctx s.
      answer (λ _. nil)
        (in_world
          (Service.Interaction.delete_comment d.sql d.event_json d.format_minute d.cache uid id)
          s)))
