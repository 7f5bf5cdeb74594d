-- ===== src/Repository/User.antt =====
-- internal/repository/user_repo.go: users by nickname, by id, and by a set of ids.
use pluto_feed.Prelude.{Option, none, some, List, [], ◌∷◌, if◌then◌else◌, Bytes}
use pluto_feed.Prelude.Int.{ℤ, eqb_ℤ}
use pluto_feed.Apierror.{Act, ◌>>=◌, pure}
use pluto_feed.Model.{User}
use pluto_feed.Db.{Db}
use pluto_feed.Sql.{Sql}

-- The loop `out[users[i].ID] = &users[i]`: a map of ids as a function.
unfoldable pub by_id : List User → (ℤ → Option User) → ℤ → Option User
by_id [] out = out
by_id (u ∷ us) out = by_id us (λ id. if eqb_ℤ u.id id then some u else out id)

module _ (sql : Sql) where
  unfoldable pub create : User → Act Db User
  create u = sql.create_user u

  unfoldable pub get_by_nickname : Bytes → Act Db (Option User)
  get_by_nickname nickname = sql.first_nickname nickname

  unfoldable pub get_by_id : ℤ → Act Db (Option User)
  get_by_id id = sql.first_user id

  unfoldable pub get_by_ids : List ℤ → Act Db (ℤ → Option User)
  get_by_ids [] = pure (λ _. none)
  get_by_ids (id ∷ ids) = do users ← sql.find_users_in (id ∷ ids); pure (by_id users (λ _. none))
