-- ===== src/Tests/Comments.antt =====
-- Writing and deleting comments, following, and the requests of one address.
use pluto_feed.Prelude.{◌≡◌, refl, true, false, inl, bytes_eq, none, some, [], ◌∷◌, codes, arith}
use pluto_feed.Prelude.Int.{pos, ltb_ℤ, eqb_ℤ}
use pluto_feed.Prelude.Decimal.{format_int}
use pluto_feed.Apierror.{fail, respond_ok}
use pluto_feed.Cache.{lookup_key}
use pluto_feed.Http.{nil, Handler}
use pluto_feed.World.{World}
use pluto_feed.Middleware.{err_rate_limited, rate_limit_ip, unix_minute}
use pluto_feed.Middleware.Minutes.{visited, rate_limit_ip-minute}
use pluto_feed.Service.Interaction.{comment, delete_comment}
use pluto_feed.Service.Interaction.Checked.{
  SaidOrNot, DeletedOrNot, comment-SaidOrNot, delete_comment-DeletedOrNot,
}
use pluto_feed.Repository.Social.{follow as follow_tx, unfollow as unfollow_tx}
use pluto_feed.Service.Social.{follow, unfollow}
use pluto_feed.Service.Social.Followed.{Sets, follow-unfollow-Sets}
use pluto_feed.Tests.Memory.{mem_sql, mem_laws, mem_redis, mem_codec, mem_codec-RoundTrips}
use pluto_feed.Tests.Runs.{first_world}
use pluto_feed.Tests.Http.{mem_rates, context, first_server}

comment-SaidOrNot_example :
    SaidOrNot mem_laws mem_codec-RoundTrips format_int
      (some mem_redis)
      (pos 2)
      (pos 1)
      (codes "hi")
      first_world
      (comment mem_sql mem_codec format_int
        (some mem_redis)
        (pos 2)
        (pos 1)
        (codes "hi")
        first_world)
comment-SaidOrNot_example =
    comment-SaidOrNot mem_laws mem_codec-RoundTrips format_int (some mem_redis) (pos 2) (pos 1)
      (codes "hi") first_world

-- The world after user 2 has commented on post 1.
abbrev commented : World
commented =
    (comment mem_sql mem_codec format_int (some mem_redis) (pos 2) (pos 1) (codes "hi")
      first_world).1

delete_comment-DeletedOrNot_example :
    DeletedOrNot mem_laws mem_codec-RoundTrips format_int
      (some mem_redis)
      (pos 2)
      (pos 1)
      commented
      (delete_comment mem_sql mem_codec format_int (some mem_redis) (pos 2) (pos 1) commented)
delete_comment-DeletedOrNot_example =
    delete_comment-DeletedOrNot mem_laws mem_codec-RoundTrips format_int (some mem_redis) (pos 2)
      (pos 1) commented

follow-unfollow-Sets_example :
    Sets mem_sql
      (follow_tx mem_sql (pos 2) (pos 1))
      true
      (pos 2)
      (pos 1)
      first_world
      (follow mem_sql (some mem_redis) (pos 2) (pos 1) first_world)
    × Sets mem_sql
        (unfollow_tx mem_sql (pos 2) (pos 1))
        false
        (pos 2)
        (pos 1)
        first_world
        (unfollow mem_sql (some mem_redis) (pos 2) (pos 1) first_world)
follow-unfollow-Sets_example =
    follow-unfollow-Sets mem_laws (some mem_redis) (pos 2) (pos 1) first_world

abbrev answered : Handler
answered ctx s = (respond_ok nil, s)

-- The second request of an address in a minute, after one of another, by a limit of one.
rate_limit_ip-minute_example :
    rate_limit_ip (some mem_rates) (pos 1) answered (context none []) (record first_server {
      rates =
          visited mem_rates
            ((codes "10.0.0.2", pos 90) ∷ (codes "10.0.0.1", pos 80) ∷ [])
            first_server.rates;
    })
    ≡ (
      fail err_rate_limited,
      record first_server {
        rates =
            visited mem_rates
              ((codes "10.0.0.1", pos 100)
                ∷ (codes "10.0.0.2", pos 90)
                ∷ (codes "10.0.0.1", pos 80)
                ∷ [])
              first_server.rates;
      },
    )
unfolding ltb_ℤ lookup_key eqb_ℤ unix_minute bytes_eq
rate_limit_ip-minute_example =
    rate_limit_ip-minute mem_rates (λ k s. refl) (λ k ttl s. inl refl) (pos 1)
      ((codes "10.0.0.2", pos 90) ∷ (codes "10.0.0.1", pos 80) ∷ []) answered (context none [])
      first_server (omega arith) (omega arith, (omega arith, tt)) refl
