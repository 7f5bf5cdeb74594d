-- ===== src/Tests/Feeds.antt =====
-- Two pages of a feed, cursors, follows and tokens.
use pluto_feed.Prelude.{◌≡◌, ◌≤◌, refl, some, List, [], ◌∷◌, ◌++◌, codes, select, arith}
use pluto_feed.Prelude.Int.{pos, eqb_ℤ, ltb_ℤ}
use pluto_feed.Apierror.{ok}
use pluto_feed.Model.{Post}
use pluto_feed.Db.{Db, older, insert_desc, order_desc, page_of, post_key, is_live}
use pluto_feed.Db.Pages.{DistinctKeys, page_of-next}
use pluto_feed.Repository.Social.{follow, unfollow}
use pluto_feed.Repository.Social.Counts.{Counted, Counted-follow, Counted-unfollow}
use pluto_feed.World.{World}
use pluto_feed.Service.Views.{Page, PostView}
use pluto_feed.Service.Cursor.{
  clamp_limit, clamp_limit-bounds, encode_cursor, before_of, before_of-encode,
}
use pluto_feed.Service.Feed.{list}
use pluto_feed.Service.Feed.Walk.{AnswersPages, Shows, list-Shows}
use pluto_feed.Tests.Memory.{mem_sql, mem_laws}
use pluto_feed.Tests.Runs.{a_post, a_user, first_db, first_world}

clamp_limit-bounds_example : (1 ≤ clamp_limit (pos 100)) × (clamp_limit (pos 100) ≤ 50)
clamp_limit-bounds_example = clamp_limit-bounds (pos 100)

before_of-encode_example :
    before_of (encode_cursor (pos 20) (pos 7)) ≡ ok (some (record { time = pos 20; id = pos 7 }))
before_of-encode_example = before_of-encode (pos 20) (pos 7) (omega arith) (omega arith)

-- Three posts, two of them of one moment.
abbrev three_posts : List Post
three_posts =
    a_post (pos 1) (pos 1) (pos 10)
    ∷ a_post (pos 2) (pos 2) (pos 30)
    ∷ a_post (pos 3) (pos 1) (pos 10)
    ∷ []

abbrev feed_world : World
feed_world = record first_world { db = record first_db { posts = three_posts } }

mem_pages : AnswersPages mem_sql
mem_pages = record { page_answer = λ scope before limit db. refl; users_answer = λ ids db. refl }

three_distinct : DistinctKeys post_key (select is_live three_posts)
three_distinct = (
  ((λ e. absurd (cc (e))), ((λ e. absurd (cc (e))), tt)),
  (((λ e. absurd (cc (e))), tt), (tt, tt)),
)

whole_feed :
    order_desc post_key (select is_live three_posts)
    ≡ (a_post (pos 2) (pos 2) (pos 30) ∷ [])
      ++ a_post (pos 3) (pos 1) (pos 10) ∷ a_post (pos 1) (pos 1) (pos 10) ∷ []
unfolding order_desc insert_desc older ltb_ℤ eqb_ℤ
whole_feed = refl

page_of-next_example :
    page_of post_key is_live (some (post_key (a_post (pos 3) (pos 1) (pos 10)))) 2 three_posts
    ≡ a_post (pos 1) (pos 1) (pos 10) ∷ []
page_of-next_example =
    page_of-next post_key is_live 2 three_posts (a_post (pos 2) (pos 2) (pos 30) ∷ [])
      (a_post (pos 3) (pos 1) (pos 10)) (a_post (pos 1) (pos 1) (pos 10) ∷ []) three_distinct
      whole_feed

list-Shows_example :
    (page : Page PostView) × ((list mem_sql
        (pos 2)
        (encode_cursor (pos 10) (pos 3))
        (pos 0)
        feed_world).0
      ≡ ok page)
    × Shows (clamp_limit (pos 0)) (a_post (pos 1) (pos 1) (pos 10) ∷ []) page
list-Shows_example =
    list-Shows mem_pages (pos 2) (encode_cursor (pos 10) (pos 3)) (pos 0) feed_world
      (a_post (pos 2) (pos 2) (pos 30) ∷ []) (a_post (pos 3) (pos 1) (pos 10))
      (a_post (pos 1) (pos 1) (pos 10) ∷ []) three_distinct whole_feed
      (before_of-encode (pos 10) (pos 3) (omega arith) (omega arith))
      ((omega arith, omega arith), tt)

-- Ann follows Bob.
abbrev followed_db : Db
followed_db = record first_db {
  users =
      record (a_user (pos 1) (codes "ann")) { following_count = pos 1 }
      ∷ record (a_user (pos 2) (codes "bob")) { follower_count = pos 1 }
      ∷ [];
  follows = record { follower_id = pos 1; followee_id = pos 2; created_at = pos 5 } ∷ [];
}

followed-Counted : Counted followed_db
unfolding eqb_ℤ
followed-Counted = (((refl, refl), ((refl, refl), tt)), (refl, tt))

Counted-follow_example : Counted (follow mem_sql (pos 2) (pos 1) followed_db).1
Counted-follow_example = Counted-follow mem_laws (pos 2) (pos 1) followed_db followed-Counted

Counted-unfollow_example : Counted (unfollow mem_sql (pos 1) (pos 2) followed_db).1
Counted-unfollow_example = Counted-unfollow mem_laws (pos 1) (pos 2) followed_db followed-Counted
