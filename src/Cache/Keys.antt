-- ===== src/Cache/Keys.antt =====
-- The keys of internal/cache/cache.go.
use pluto_feed.Prelude.{◌++◌, Bytes, codes}
use pluto_feed.Prelude.Int.{ℤ}
use pluto_feed.Prelude.Decimal.{format_int}

unfoldable pub post_key : ℤ → Bytes
post_key id = codes "post:" ++ format_int id

unfoldable pub user_key : ℤ → Bytes
user_key id = codes "user:" ++ format_int id

unfoldable pub hot_result_key : ℤ → Bytes
hot_result_key limit = codes "hot:result:" ++ format_int limit
