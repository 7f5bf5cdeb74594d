-- ===== src/Tests/Codecs.antt =====
-- Codecs of the cached values in memory: numbers with their signs, and texts after their lengths. As the
-- program's, they leave out the password and the time of deletion.
use pluto_feed.Prelude.{
  ◌≡◌, refl, zero, suc, Bool, true, false, Option, none, some, List, [], ◌∷◌, ◌++◌, ap, Bytes, map,
  take, drop, length, if◌then◌else◌,
}
use mathlib.Core.Path.{subst}
use pluto_feed.Prelude.Int.{ℤ, pos}
use pluto_feed.Model
use pluto_feed.Model.{User}
use pluto_feed.Cache.{Json}
use pluto_feed.Service.Views.{PostView}
use pluto_feed.Service.Post.{Envelope}
use pluto_feed.Service.Post.Coherent.{PostsBack, UsersBack, kept_post, kept_user, kept_envelope}
use pluto_feed.Service.Feed.Hot.{KeepsLikes}
use pluto_feed.Tests.Tokens.{sign_of, nat_of, signed_int, int_back, typ_back}

some_same : {x y : Bytes} → some x ≡ some y → x ≡ y
some_same e = cc

-- Posts with one image and without tags.
abbrev post_bytes : Model.Post → Bytes → Bytes
post_bytes p url =
    sign_of p.id
    ∷ nat_of p.id
    ∷ sign_of p.user_id
    ∷ nat_of p.user_id
    ∷ sign_of p.like_count
    ∷ nat_of p.like_count
    ∷ sign_of p.comment_count
    ∷ nat_of p.comment_count
    ∷ sign_of p.created_at
    ∷ nat_of p.created_at
    ∷ length url
    ∷ (url ++ p.content)

abbrev put_post : Model.Post → List Bytes → List Bytes → Option Bytes
put_post p (url ∷ []) [] = some (post_bytes p url)
put_post p _ _ = none

abbrev put_posts : Bool → Option Model.Post → Option Bytes
put_posts false none = some []
put_posts true (some p) = put_post p p.image_urls p.tags
put_posts _ _ = none

abbrev got_posts : Bytes → Option (Envelope Model.Post)
got_posts [] = some (record { found = false; value = none })
got_posts (a ∷ b ∷ c ∷ d ∷ e ∷ f ∷ g ∷ h ∷ i ∷ j ∷ n ∷ rest) = some (record {
  found = true;
  value = some (record {
    id = signed_int a b;
    user_id = signed_int c d;
    image_urls = take n rest ∷ [];
    content = drop n rest;
    tags = [];
    like_count = signed_int e f;
    comment_count = signed_int g h;
    created_at = signed_int i j;
    deleted_at = none;
  });
})
got_posts _ = none

abbrev pub post_codec : Json (Envelope Model.Post)
post_codec = record { marshal = λ e. put_posts e.found e.value; unmarshal = got_posts }

pub post_codec-PostsBack : PostsBack post_codec
post_codec-PostsBack e b good h = go e.found e.value h
  where
    one :
        (p : Model.Post) (urls tags : List Bytes)
        → put_post p urls tags ≡ some b
        → got_posts b
          ≡ some (record {
            found = true;
            value = some (record p { image_urls = urls; tags = tags; deleted_at = none });
          })
    one p (url ∷ []) [] h =
        subst
          (λ x.
            got_posts x
            ≡ some (record {
              found = true;
              value = some (record p { image_urls = url ∷ []; tags = []; deleted_at = none });
            }))
          (some_same h)
          (rw
            (
              int_back p.id,
              int_back p.user_id,
              int_back p.like_count,
              int_back p.comment_count,
              int_back p.created_at,
              (typ_back url p.content).0,
              (typ_back url p.content).1,
            )
            refl)
    one p [] tags h = absurd (cc)
    one p (url ∷ []) (t ∷ ts) h = absurd (cc)
    one p (url ∷ v ∷ vs) tags h = absurd (cc)

    go :
        (f : Bool) (v : Option Model.Post)
        → put_posts f v ≡ some b
        → got_posts b ≡ some (kept_envelope kept_post (record { found = f; value = v }))
    go false none h = rw (← some_same h) refl
    go false (some p) h = absurd (cc)
    go true none h = absurd (cc)
    go true (some p) h = one p p.image_urls p.tags h

abbrev user_bytes : User → Bytes
user_bytes u =
    sign_of u.id
    ∷ nat_of u.id
    ∷ sign_of u.following_count
    ∷ nat_of u.following_count
    ∷ sign_of u.follower_count
    ∷ nat_of u.follower_count
    ∷ sign_of u.created_at
    ∷ nat_of u.created_at
    ∷ length u.nickname
    ∷ length u.avatar_url
    ∷ (u.nickname ++ (u.avatar_url ++ u.bio))

abbrev put_users : Bool → Option User → Option Bytes
put_users false none = some []
put_users true (some u) = some (user_bytes u)
put_users _ _ = none

abbrev got_users : Bytes → Option (Envelope User)
got_users [] = some (record { found = false; value = none })
got_users (a ∷ b ∷ c ∷ d ∷ e ∷ f ∷ g ∷ h ∷ n ∷ m ∷ rest) = some (record {
  found = true;
  value = some (record {
    id = signed_int a b;
    nickname = take n rest;
    password_hash = [];
    avatar_url = take m (drop n rest);
    bio = drop m (drop n rest);
    following_count = signed_int c d;
    follower_count = signed_int e f;
    created_at = signed_int g h;
  });
})
got_users _ = none

abbrev pub user_codec : Json (Envelope User)
user_codec = record { marshal = λ e. put_users e.found e.value; unmarshal = got_users }

pub user_codec-UsersBack : UsersBack user_codec
user_codec-UsersBack e b good h = go e.found e.value h
  where
    go :
        (f : Bool) (v : Option User)
        → put_users f v ≡ some b
        → got_users b ≡ some (kept_envelope kept_user (record { found = f; value = v }))
    go false none h = rw (← some_same h) refl
    go false (some p) h = absurd (cc)
    go true none h = absurd (cc)
    go true (some u) h =
        rw
          (
            ← some_same h,
            int_back u.id,
            int_back u.following_count,
            int_back u.follower_count,
            int_back u.created_at,
            (typ_back u.nickname (u.avatar_url ++ u.bio)).0,
            (typ_back u.nickname (u.avatar_url ++ u.bio)).1,
            (typ_back u.avatar_url u.bio).0,
            (typ_back u.avatar_url u.bio).1,
          )
          refl

-- Rankings: the like and the id of each view.
abbrev put_views : List PostView → Bytes
put_views [] = []
put_views (v ∷ vs) = (if v.liked then 1 else 0) ∷ sign_of v.id ∷ nat_of v.id ∷ put_views vs

abbrev bare_view : Bool → ℤ → PostView
bare_view liked id = record {
  id = id;
  user_id = pos 0;
  author = record { id = pos 0; nickname = []; avatar_url = [] };
  image_urls = [];
  content = [];
  tags = [];
  like_count = pos 0;
  comment_count = pos 0;
  liked = liked;
  created_at = pos 0;
}

abbrev got_views : Bytes → List PostView
got_views (zero ∷ s ∷ n ∷ rest) = bare_view false (signed_int s n) ∷ got_views rest
got_views (suc k ∷ s ∷ n ∷ rest) = bare_view true (signed_int s n) ∷ got_views rest
got_views _ = []

abbrev put_ranking : Option (List PostView) → Option Bytes
put_ranking none = none
put_ranking (some vs) = some (put_views vs)

abbrev pub view_codec : Json (Option (List PostView))
view_codec = record { marshal = put_ranking; unmarshal = λ b. some (some (got_views b)) }

likes_back :
    (vs : List PostView) → map (λ v. v.liked) (got_views (put_views vs)) ≡ map (λ v. v.liked) vs
likes_back [] = refl
likes_back (v ∷ vs) = head v.liked (likes_back vs)
  where
    head :
        (b : Bool)
        → map (λ v. v.liked) (got_views (put_views vs)) ≡ map (λ v. v.liked) vs
        → map
            (λ v. v.liked)
            (got_views ((if b then 1 else 0) ∷ sign_of v.id ∷ nat_of v.id ∷ put_views vs))
          ≡ b ∷ map (λ v. v.liked) vs
    head true ih = ap (◌∷◌ true) ih
    head false ih = ap (◌∷◌ false) ih

pub view_codec-KeepsLikes : KeepsLikes view_codec
view_codec-KeepsLikes items back b e d =
    let same : put_views items ≡ b = some_same e in
    let decoded : got_views b ≡ back = views_same d in rw (← decoded, ← same) (likes_back items)
  where
    views_same :
        {x y : List PostView}
        → ◌≡◌ {A = Option (Option (List PostView))} (some (some x)) (some (some y))
        → x ≡ y
    views_same h = cc
