-- ===== src/Repository/Social.antt =====
-- internal/repository/follow_repo.go: the follow relation, written in one transaction with the counts
-- of both users, and its two lists.
pub mod Counts
use pluto_feed.Prelude.{ℕ, Bool, true, false, Option, none, some, List, ◌==◌, if◌then◌else◌}
use pluto_feed.Prelude.Int.{ℤ, pos, negsuc}
use pluto_feed.Apierror.{Act, ◌>>=◌, ◌>>◌, pure}
use pluto_feed.Model.{Follow}
use pluto_feed.Db.{Db, PageCursor}
use pluto_feed.Sql.{Sql}

module _ (sql : Sql) where
  unfoldable pub follow_body : ℤ → ℤ → Act Db (Unit {0})
  follow_body follower_id followee_id = do
    rows_affected ← sql.insert_follow follower_id followee_id
    if rows_affected == 0
        then pure tt
        else (do sql.add_following (pos 1) follower_id; sql.add_follower (pos 1) followee_id)

  unfoldable pub follow : ℤ → ℤ → Act Db (Unit {0})
  unfolding follow_body
  follow follower_id followee_id = sql.transaction (Unit {0}) (follow_body follower_id followee_id)

  unfoldable pub unfollow_body : ℤ → ℤ → Act Db (Unit {0})
  unfollow_body follower_id followee_id = do
    rows_affected ← sql.remove_follow follower_id followee_id
    if rows_affected == 0
        then pure tt
        else (do sql.add_following (negsuc 0) follower_id; sql.add_follower (negsuc 0) followee_id)

  unfoldable pub unfollow : ℤ → ℤ → Act Db (Unit {0})
  unfolding unfollow_body
  unfollow follower_id followee_id =
      sql.transaction (Unit {0}) (unfollow_body follower_id followee_id)

  unfoldable pub is_following : ℤ → ℤ → Act Db Bool
  is_following follower_id followee_id = do
    f ← sql.first_follow follower_id followee_id
    pure (elim f [ none ↦ false | some _ ↦ true ])

  -- `following` is the direction "following", its negation "followers".
  unfoldable pub list_by_direction : ℤ → Option PageCursor → ℕ → Bool → Act Db (List Follow)
  list_by_direction uid before limit following = sql.page_follows following uid before limit

  unfoldable pub list_following : ℤ → Option PageCursor → ℕ → Act Db (List Follow)
  unfolding list_by_direction
  list_following uid before limit = list_by_direction uid before limit true

  unfoldable pub list_followers : ℤ → Option PageCursor → ℕ → Act Db (List Follow)
  unfolding list_by_direction
  list_followers uid before limit = list_by_direction uid before limit false

  unfoldable pub following_ids : ℤ → Act Db (List ℤ)
  following_ids uid = sql.followee_ids uid
