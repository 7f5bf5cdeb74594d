-- ===== src/Tests/Memory.antt =====
-- Services in memory: every statement succeeds with its documented effect, a transaction that fails is
-- rolled back, and Redis answers each command.
use pluto_feed.Prelude.{
  bytes_eq, ℕ, zero, suc, ◌≡◌, inl, refl, ap, true, ◌&&◌, Option, none, some, ◌∷◌, Bytes, any,
  length, select, find, map,
}
use pluto_feed.Prelude.Int.{ℤ, pos, negsuc, eqb_ℤ}
use pluto_feed.Apierror.{Error, Result, ok, err, Act}
use pluto_feed.Model.{CountEvent}
use pluto_feed.Db.{
  Db, page_of, post_key, comment_key, follow_key, is_live, is_like, is_follow, find_user,
  find_nickname, find_users, insert_user, find_post, insert_post, soft_delete_post, add_post_count,
  insert_ignore_like, delete_like, find_comment, insert_comment, delete_comment,
  insert_ignore_follow, delete_follow, add_following_count, add_follower_count, insert_event,
  pending_events, mark_events, insert_ignore_processed,
}
use pluto_feed.Sql.{Sql, SqlLaws, IsAtomic, by_user, in_scope, in_direction}
use pluto_feed.Repository.Outbox.{Codec, RoundTrips}
use pluto_feed.Cache.{Redis, RedisLaws, value_at, put_value, drop_keys, add_score, members_at}

module _ {S A : Type 0} where
  -- A statement that succeeds.
  abbrev pub runs : (S → A × S) → Act S A
  runs effect s = (ok (effect s).0, (effect s).1)

  abbrev pub queries : (S → A) → Act S A
  queries query s = (ok (query s), s)

abbrev pub writes : {S : Type 0} → (S → S) → Act S (Unit {0})
writes effect s = (ok tt, effect s)

abbrev or_rolled_back : {A : Type 0} → Result A × Db → Db → Result A × Db
or_rolled_back (ok a, s) db = (ok a, s)
or_rolled_back (err e, s) db = (err e, db)

abbrev transact : (A : Type 0) → Act Db A → Act Db A
transact A body db = or_rolled_back (body db) db

transact-IsAtomic : IsAtomic transact
transact-IsAtomic = record {
  rollback = λ A body db e h. rolled (body db) db e h;
  commit = λ A body db a h. inl (kept (body db) db a h);
}
  where
    rolled :
        {A : Type 0} (r : Result A × Db) (db : Db) (e : Error)
        → r.0 ≡ err e
        → or_rolled_back r db ≡ (err e, db)
    rolled (ok a, s) db e h = absurd (cc)
    rolled (err x, s) db e h = ap (λ r. (r, db)) h

    kept : {A : Type 0} (r : Result A × Db) (db : Db) (a : A) → r.0 ≡ ok a → or_rolled_back r db ≡ r
    kept (ok a, s) db b h = refl
    kept (err x, s) db b h = absurd (cc)

abbrev pub mem_sql : Sql
mem_sql = record {
  transaction = transact;
  create_user = λ u. runs (insert_user u);
  first_user = λ id. queries (find_user id);
  same_nickname = bytes_eq;
  first_nickname = λ n. queries (find_nickname bytes_eq n);
  find_users_in = λ ids. queries (find_users ids);
  add_following = λ d id. writes (add_following_count d id);
  add_follower = λ d id. writes (add_follower_count d id);
  create_post = λ p. runs (insert_post p);
  first_post = λ id. queries (find_post id);
  soft_delete = λ id. writes (soft_delete_post id);
  page_posts =
      λ scope before limit. queries (λ db. page_of post_key (in_scope scope) before limit db.posts);
  count_posts = λ uid. queries (λ db. length (select (in_scope (by_user uid)) db.posts));
  matches = λ word p. true;
  search_posts =
      λ word limit. queries (λ db. page_of post_key (λ p. is_live p && true) none limit db.posts);
  add_count = λ f d id. writes (add_post_count f d id);
  insert_like = λ p u. runs (insert_ignore_like p u);
  remove_like = λ p u. runs (delete_like p u);
  count_likes = λ p u. queries (λ db. length (select (is_like p u) db.likes));
  liked_among = λ uid ids. queries (λ db.
      map (λ l. l.post_id)
        (select (λ l. eqb_ℤ l.user_id uid && any (eqb_ℤ l.post_id) ids) db.likes));
  create_comment = λ c. runs (insert_comment c);
  first_comment = λ id. queries (find_comment id);
  remove_comment = λ id. writes (delete_comment id);
  page_comments = λ pid before limit.
      queries (λ db. page_of comment_key (λ c. eqb_ℤ c.post_id pid) before limit db.comments);
  insert_follow = λ a b. runs (insert_ignore_follow a b);
  remove_follow = λ a b. runs (delete_follow a b);
  page_follows = λ following uid before limit.
      queries
        (λ db. page_of (follow_key following) (in_direction following uid) before limit db.follows);
  first_follow = λ a b. queries (λ db. find (is_follow a b) db.follows);
  followee_ids = λ uid.
      queries (λ db. map (λ f. f.followee_id) (select (λ f. eqb_ℤ f.follower_id uid) db.follows));
  create_event = λ e. writes (insert_event e);
  find_pending = λ limit. queries (pending_events limit);
  update_processed = λ ids. writes (mark_events ids);
  insert_processed = λ id. runs (insert_ignore_processed id);
}

pub mem_laws : SqlLaws mem_sql
mem_laws = record {
  atomic = transact-IsAtomic;
  create_user_law = λ u db. inl refl;
  first_user_law = λ id db. inl refl;
  first_nickname_law = λ n db. inl refl;
  find_users_law = λ ids db. inl refl;
  add_following_law = λ d id db. inl refl;
  add_follower_law = λ d id db. inl refl;
  create_post_law = λ p db. inl refl;
  first_post_law = λ id db. inl refl;
  soft_delete_law = λ id db. inl refl;
  page_posts_law = λ scope before limit db. inl refl;
  count_posts_law = λ uid db. inl refl;
  search_posts_law = λ word limit db. inl refl;
  add_count_law = λ f d id field db. inl refl;
  insert_like_law = λ p u db. inl refl;
  remove_like_law = λ p u db. inl refl;
  count_likes_law = λ p u db. inl refl;
  liked_among_law = λ uid ids db. inl refl;
  create_comment_law = λ c db. inl refl;
  first_comment_law = λ id db. inl refl;
  remove_comment_law = λ id db. inl refl;
  page_comments_law = λ pid before limit db. inl refl;
  insert_follow_law = λ a b db. inl refl;
  remove_follow_law = λ a b db. inl refl;
  page_follows_law = λ following uid before limit db. inl refl;
  first_follow_law = λ a b db. inl refl;
  followee_ids_law = λ uid db. inl refl;
  create_event_law = λ e db. inl refl;
  find_pending_law = λ limit db. inl refl;
  update_processed_law = λ ids db. inl refl;
  insert_processed_law = λ id db. inl refl;
}

abbrev pub mem_redis : Redis
mem_redis = record {
  get = λ k. queries (value_at k);
  set = λ k v ttl. writes (put_value k v ttl);
  del = λ ks. writes (drop_keys ks);
  zincrby = λ k incr name. writes (add_score k name incr);
  expire = λ k ttl. writes (λ kv. kv);
  zrevrange = λ k. queries (members_at k);
}

pub mem_redis_laws : RedisLaws mem_redis
mem_redis_laws = record {
  get_law = λ k kv. inl refl;
  set_law = λ k v ttl kv. inl refl;
  del_law = λ ks kv. inl refl;
  zincrby_law = λ k incr name kv. inl refl;
  zrevrange_law = λ k kv. inl refl;
}

-- Count events as bytes: sign and size of both numbers, then the field.
abbrev put_int : ℤ → Bytes → Bytes
put_int (pos n) rest = 0 ∷ n ∷ rest
put_int (negsuc n) rest = 1 ∷ n ∷ rest

abbrev int_of : ℕ → ℕ → ℤ
int_of zero n = pos n
int_of (suc s) n = negsuc n

abbrev event_of : Bytes → Option CountEvent
event_of (s ∷ m ∷ t ∷ n ∷ field) =
    some (record { post_id = int_of s m; field = field; delta = int_of t n })
event_of _ = none

abbrev pub mem_codec : Codec
mem_codec = record {
  marshal = λ e. some (put_int e.post_id (put_int e.delta e.field));
  unmarshal = event_of;
}

pub mem_codec-RoundTrips : RoundTrips mem_codec
mem_codec-RoundTrips e =
    (put_int e.post_id (put_int e.delta e.field), refl, go e.post_id e.delta e.field)
  where
    go :
        (p d : ℤ) (f : Bytes)
        → event_of (put_int p (put_int d f)) ≡ some (record { post_id = p; field = f; delta = d })
    go (pos m) (pos n) f = refl
    go (pos m) (negsuc n) f = refl
    go (negsuc m) (pos n) f = refl
    go (negsuc m) (negsuc n) f = refl
