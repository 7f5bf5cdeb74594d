-- ===== src/World.antt =====
-- The state that the services and the worker share: the tables, the cache, and the Bloom filter of
-- the post service (nil when it is switched off). `in_db` and `in_kv` run a call of one part.
use pluto_feed.Prelude.{Option}
use pluto_feed.Apierror.{Result, ok, err, Act}
use pluto_feed.Bloom.{Bloom}
use pluto_feed.Db.{Db}
use pluto_feed.Cache.{Kv}

pub record World : Type 0 where
  pub db : Db
  pub kv : Kv
  pub bloom : Option Bloom

module _ {A : Type 0} where
  abbrev pub in_db : Act Db A → Act World A
  in_db act w = ((act w.db).0, record w { db = (act w.db).1 })

  abbrev pub in_kv : Act Kv A → Act World A
  in_kv act w = ((act w.kv).0, record w { kv = (act w.kv).1 })

  -- A call whose error is only logged.
  abbrev pub best_effort : Act World A → Act World (Unit {0})
  best_effort act w = (ok tt, (act w).1)

  -- A result that no state is needed for.
  abbrev pub lift : Result A → Act World A
  lift r w = (r, w)

  abbrev pub recovered : A → Result A → A
  recovered a (ok b) = b
  recovered a (err e) = a

  -- A call whose error is dropped, with the value that stands in for it.
  abbrev pub or_else : A → Act World A → Act World A
  or_else a act w = (ok (recovered a (act w).0), (act w).1)
