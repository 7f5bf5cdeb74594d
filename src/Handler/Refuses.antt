-- ===== src/Handler/Refuses.antt =====
-- internal/handler: what the handlers answer to a request whose parameters are bad.
use pluto_feed.Prelude.{◌≡◌, refl, Option, none, some, List, [], ◌∷◌, All, arith}
use pluto_feed.Prelude.Int.{ℤ, pos, ltb_ℤ_iff, ◌≤ℤ◌}
use pluto_feed.Prelude.Decimal.{parse_int}
use pluto_feed.Apierror.{bad_request, unauthorized, fail}
use pluto_feed.Http.{Context, Request, Server, Handler, Deps}
use pluto_feed.Handler.Params.{must_uid, with_path_id, path_id, positive}
use pluto_feed.Handler.Auth
use pluto_feed.Handler.Feed
use pluto_feed.Handler.Interaction
use pluto_feed.Handler.Post
use pluto_feed.Handler.Social

-- The handlers that need a user, and those of them and others that take an id.
abbrev pub user_handlers : Deps → List Handler
user_handlers d =
    Interaction.like d
    ∷ Interaction.unlike d
    ∷ Interaction.comment d
    ∷ Interaction.delete_comment d
    ∷ Post.create d
    ∷ Post.delete d
    ∷ Social.follow d
    ∷ Social.unfollow d
    ∷ Feed.list_following d
    ∷ Auth.me d
    ∷ []

abbrev pub id_handlers : Deps → List Handler
id_handlers d =
    Interaction.like d
    ∷ Interaction.unlike d
    ∷ Interaction.comment d
    ∷ Interaction.delete_comment d
    ∷ Interaction.list_comments d
    ∷ Post.get d
    ∷ Post.delete d
    ∷ Social.follow d
    ∷ Social.unfollow d
    ∷ Social.list_following d
    ∷ Social.list_followers d
    ∷ Social.get_profile d
    ∷ []

-- No id, zero, or a negative one.
abbrev pub IsBadId : Option ℤ → Type 0
IsBadId none = Unit
IsBadId (some id) = id ≤ℤ pos 0

path_id-none : (req : Request) → IsBadId (parse_int req.param_id) → path_id req ≡ none
unfolding path_id
path_id-none req bad = go (parse_int req.param_id) bad
  where
    go : (o : Option ℤ) → IsBadId o → positive o ≡ none
    go none h = refl
    go (some id) h = ground (arith, ltb_ℤ_iff (pos 0) id)

-- For a user who is logged in: a path whose id is no decimal int64, or not positive, is answered 400 by each
-- handler that takes an id, and nothing is changed.
pub id_handlers-bad_request :
    (d : Deps) (uid : ℤ) (ctx : Context) (s : Server)
    → ctx.uid ≡ some uid
    → IsBadId (parse_int ctx.request.param_id)
    → All (λ h. h ctx s ≡ (fail bad_request, s)) (id_handlers d)
unfolding Interaction.like Interaction.unlike Interaction.comment Interaction.delete_comment
    Interaction.list_comments Post.get Post.delete Social.follow Social.unfollow
    Social.list_following Social.list_followers Social.list Social.get_profile must_uid with_path_id
id_handlers-bad_request d uid ctx s known bad =
    rw (known, path_id-none ctx.request bad)
      (
        refl,
        (refl, (refl, (refl, (refl, (refl, (refl, (refl, (refl, (refl, (refl, (refl, tt))))))))))),
      )

-- Without a user, each handler that needs one answers 401, and nothing is changed.
pub user_handlers-unauthorized :
    (d : Deps) (ctx : Context) (s : Server)
    → ctx.uid ≡ none
    → All (λ h. h ctx s ≡ (fail unauthorized, s)) (user_handlers d)
unfolding Interaction.like Interaction.unlike Interaction.comment Interaction.delete_comment
    Post.create Post.delete Social.follow Social.unfollow Feed.list_following Auth.me must_uid
user_handlers-unauthorized d ctx s nobody =
    rw nobody (refl, (refl, (refl, (refl, (refl, (refl, (refl, (refl, (refl, (refl, tt))))))))))
