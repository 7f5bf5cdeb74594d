-- ===== src/Tests/Tokens.antt =====
-- Issuing tokens, a refresh token that is used twice, and one that is logged out.
use pluto_feed.Prelude.{
  arith, ℕ, suc, ◌≡◌, ◌≢◌, refl, Option, none, some, [], ◌∷◌, ◌++◌, Bytes, bytes_eq, codes,
  if◌then◌else◌,
}
use pluto_feed.Prelude.Int.{ℤ, pos, negsuc, eqb_ℤ, ltb_ℤ, ◌+ℤ◌}
use pluto_feed.Apierror.{ok, err}
use pluto_feed.World.{World}
use pluto_feed.Cache.{Json, get_json, lookup_key, value_at}
use pluto_feed.Cache.Reads.{Answers}
use mathlib.Core.Path.{subst}
use pluto_feed.Prelude.{zero, true, false, take, drop, length, ap}
use pluto_feed.Jwtutil.Kinds.{parse-issue_pair}
use pluto_feed.Jwtutil.{
  whole_second, as_read, Jwt, Manager, Claims, Parsed, valid, invalid, expired, sign, issue_pair,
  parse, typ_access, typ_refresh, IsFaithful, err_invalid_token,
}
use pluto_feed.Service.Auth.{
  TokenPair, Bcrypt, Moment, refresh, logout, tokens_for, refresh_key, whitelist_uid,
  register_refresh, revoke_refresh,
}
use pluto_feed.Service.Auth.Rotation.{Rejected, refresh-logout}
use pluto_feed.Service.Auth.Rotation.Later.{at_once, logged_out, refresh_once}
use pluto_feed.Tests.Memory.{mem_sql, mem_redis}
use pluto_feed.Tests.Runs.{first_kv, first_world}

pub redis-Answers : Answers mem_redis
redis-Answers = record {
  get_answer = λ k kv. refl;
  set_answer = λ k v ttl kv. refl;
  del_answer = λ ks kv. refl;
}

abbrev pub digest : Bytes → Bytes
digest token = token

abbrev pub nat_of : ℤ → ℕ
nat_of (pos n) = n
nat_of (negsuc n) = n

abbrev first_uid : Bytes → Option ℤ
first_uid [] = none
first_uid (n ∷ ns) = some (pos n)

abbrev pub uid_json : Json ℤ
uid_json = record { marshal = λ z. some (nat_of z ∷ []); unmarshal = first_uid }

-- Tokens in the clear: three numbers with their signs, the length of the type, the type and the id.
abbrev pub sign_of : ℤ → ℕ
sign_of (pos n) = 0
sign_of (negsuc n) = 1

abbrev pub signed_int : ℕ → ℕ → ℤ
signed_int zero n = pos n
signed_int (suc s) n = negsuc n

abbrev token_of : Claims → Bytes
token_of c =
    sign_of c.uid
      ∷ nat_of c.uid
      ∷ sign_of c.expires_at
      ∷ nat_of c.expires_at
      ∷ sign_of c.issued_at
      ∷ nat_of c.issued_at
      ∷ length c.typ
      ∷ c.typ
    ++ c.id

abbrev checked : ℤ → Claims → Parsed
checked now c = if ltb_ℤ now (whole_second c.expires_at) then valid (as_read c) else expired

abbrev claims_of : ℤ → Bytes → Parsed
claims_of now (a ∷ b ∷ c ∷ d ∷ e ∷ f ∷ n ∷ rest) = checked now (record {
  uid = signed_int a b;
  typ = take n rest;
  expires_at = signed_int c d;
  issued_at = signed_int e f;
  id = drop n rest;
})
claims_of now _ = invalid

abbrev pub clear_jwt : Jwt
clear_jwt = record {
  signed_string = λ secret c. some (token_of c);
  parse_with_claims = λ secret now token. claims_of now token;
}

pub int_back : (z : ℤ) → signed_int (sign_of z) (nat_of z) ≡ z
int_back (pos n) = refl
int_back (negsuc n) = refl

pub typ_back :
    (xs ys : Bytes) → (take (length xs) (xs ++ ys) ≡ xs) × (drop (length xs) (xs ++ ys) ≡ ys)
typ_back [] ys = (refl, refl)
typ_back (x ∷ xs) ys = let (t, d) = typ_back xs ys in (ap (◌∷◌ x) t, d)

pub clear_jwt-IsFaithful : IsFaithful clear_jwt
clear_jwt-IsFaithful secret token c now plain plain_id e =
    let same : token_of c ≡ token = some_same e in
    subst (λ t. claims_of now t ≡ checked now c) same
      (rw
        (
          int_back c.uid,
          int_back c.expires_at,
          int_back c.issued_at,
          (typ_back c.typ c.id).0,
          (typ_back c.typ c.id).1,
        )
        refl)
  where
    some_same : {x y : Bytes} → some x ≡ some y → x ≡ y
    some_same e = cc

abbrev pub clear_bcrypt : Bcrypt
clear_bcrypt = record { generate_from_password = λ p. ok p; matches = λ h p. bytes_eq h p }

abbrev pub manager : Manager
manager = record {
  secret = codes "key";
  access_ttl = pos 1_800_000_000_000;
  refresh_ttl = pos 900_000_000_000;
}

abbrev first_token : Bytes
first_token = 0 ∷ 2 ∷ 0 ∷ 900_000_000_100 ∷ 0 ∷ 100 ∷ 7 ∷ typ_refresh ++ 7 ∷ []

abbrev logged_in : World
logged_in = record first_world {
  kv = record first_kv {
    strings = (codes "rt:" ++ first_token, record { value = 2 ∷ []; expires_at = pos 1000 }) ∷ [];
  };
}

abbrev pub at : ℕ → Moment
at id = record { now = pos 100; access_id = suc id ∷ []; refresh_id = id ∷ [] }

abbrev pub second_pair : TokenPair
second_pair = record {
  access_token = 0 ∷ 2 ∷ 0 ∷ 1_800_000_000_100 ∷ 0 ∷ 100 ∷ 6 ∷ typ_access ++ 9 ∷ [];
  refresh_token = 0 ∷ 2 ∷ 0 ∷ 900_000_000_100 ∷ 0 ∷ 100 ∷ 7 ∷ typ_refresh ++ 8 ∷ [];
  token_type = codes "Bearer";
  expires_in = pos 1800;
}

first_refresh :
    (refresh digest uid_json
      (some mem_redis)
      mem_sql
      clear_bcrypt
      clear_jwt
      manager
      (at 8)
      first_token
      logged_in).0
    ≡ ok second_pair
unfolding refresh parse whitelist_uid refresh_key get_json value_at lookup_key tokens_for issue_pair
    sign bytes_eq eqb_ℤ ltb_ℤ ◌+ℤ◌ whole_second revoke_refresh register_refresh
first_refresh = refl

other_key : refresh_key digest second_pair.refresh_token ≢ refresh_key digest first_token
unfolding refresh_key bytes_eq
other_key e = apart (ap (λ t. bytes_eq t (refresh_key digest first_token)) e)
  where
    apart : false ≡ true → ⊥
    apart h = absurd (cc)

abbrev rotated : World
rotated =
    (refresh digest uid_json (some mem_redis) mem_sql clear_bcrypt clear_jwt manager (at 8)
      first_token logged_in).1

-- The user logs out with the new token before the old one is used again.
abbrev left : World
left =
    (logout digest uid_json (some mem_redis) mem_sql clear_bcrypt clear_jwt manager
      second_pair.refresh_token rotated).1

refresh_once_example :
    Rejected
      (refresh digest uid_json
        (some mem_redis)
        mem_sql
        clear_bcrypt
        clear_jwt
        manager
        (at 12)
        first_token
        left).0
refresh_once_example =
    refresh_once digest uid_json redis-Answers mem_sql clear_bcrypt clear_jwt manager (at 8) (at 12)
      first_token logged_in left second_pair first_refresh other_key
      (logged_out second_pair.refresh_token at_once)

refresh-logout_example :
    Rejected
      (refresh digest uid_json
        (some mem_redis)
        mem_sql
        clear_bcrypt
        clear_jwt
        manager
        (at 8)
        first_token
        (logout digest uid_json
          (some mem_redis)
          mem_sql
          clear_bcrypt
          clear_jwt
          manager
          first_token
          logged_in).1).0
refresh-logout_example =
    refresh-logout digest uid_json redis-Answers mem_sql clear_bcrypt clear_jwt manager (at 8)
      first_token logged_in

pub issued :
    issue_pair clear_jwt manager (pos 2) (pos 100) (9 ∷ []) (8 ∷ [])
    ≡ ok (second_pair.access_token, second_pair.refresh_token)
unfolding issue_pair sign ◌+ℤ◌
issued = refl

live :
    (ltb_ℤ (pos 200) (whole_second (pos 100 +ℤ manager.access_ttl)) ≡ true)
    × (ltb_ℤ (pos 200) (whole_second (pos 100 +ℤ manager.refresh_ttl)) ≡ true)
unfolding ltb_ℤ ◌+ℤ◌ whole_second
live = (refl, refl)

parse-issue_pair_example :
    (parse clear_jwt manager (pos 200) second_pair.access_token typ_access ≡ ok (pos 2))
    × (parse clear_jwt manager (pos 200) second_pair.access_token typ_refresh
        ≡ err err_invalid_token)
    × (parse clear_jwt manager (pos 200) second_pair.refresh_token typ_refresh ≡ ok (pos 2))
    × (parse clear_jwt manager (pos 200) second_pair.refresh_token typ_access
        ≡ err err_invalid_token)
parse-issue_pair_example =
    parse-issue_pair clear_jwt-IsFaithful manager (pos 2) (pos 100) (pos 200) (9 ∷ []) (8 ∷ [])
      second_pair.access_token second_pair.refresh_token (omega arith, tt) (omega arith, tt) issued
      live.0 live.1
