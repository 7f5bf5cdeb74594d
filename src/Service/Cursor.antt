-- ===== src/Service/Cursor.antt =====
-- Lines 17-47 of internal/service/feed_service.go: page sizes and cursors. A time is its nanoseconds since 1970.
use pluto_feed.Prelude.{
  ℕ, ◌≡◌, ◌≤◌, inl, inr, refl, sym, ◌∙◌, ap, false, not, Option, none, some, [], ◌∷◌, ◌++◌, ◌==◌,
  if◌then◌else◌, Bytes, All, arith,
}
use pluto_feed.Prelude.Int.{ℤ, pos, pos_part, ltb_ℤ, ltb_ℤ_iff}
use pluto_feed.Prelude.Decimal.{
  format_int, parse_int, parse_int-format, format_int-IsIntByte, IsIntByte, InInt64,
}
use pluto_feed.Prelude.Base64.{encode, decode, decode-encode, decode_nil, IsByte}
use pluto_feed.Apierror.{Error, new, Result, ok, err}
use pluto_feed.Db.{PageCursor}

abbrev pub default_page_size : ℕ
default_page_size = 20

abbrev pub max_page_size : ℕ
max_page_size = 50

-- The two tests of a page's limit at the head of each list.
unfoldable pub clamp_limit : ℤ → ℕ
clamp_limit limit =
    if not (ltb_ℤ (pos 0) limit)
    then default_page_size
    else if ltb_ℤ (pos max_page_size) limit
    then max_page_size
    else pos_part limit

abbrev pub invalid_cursor : Error
invalid_cursor = new 400 40005 "无效的游标"

abbrev underscore : ℕ
underscore = 95

unfoldable pub encode_cursor : ℤ → ℤ → Bytes
encode_cursor t id = encode (format_int t ++ underscore ∷ format_int id)

-- `strings.SplitN(s, "_", 2)`; `none` when there are not two parts.
split_pair : Bytes → Option (Bytes × Bytes)
split_pair [] = none
split_pair (c ∷ cs) =
    let later = split_pair cs in
    if c == underscore
    then some ([], cs)
    else elim later [ none ↦ none | some p ↦ some (c ∷ p.0, p.1) ]

cursor_of : Option ℤ → Option ℤ → Result PageCursor
cursor_of (some nano) (some id) = ok (record { time = nano; id = id })
cursor_of _ _ = err invalid_cursor

of_parts : Option (Bytes × Bytes) → Result PageCursor
unfolding cursor_of
of_parts none = err invalid_cursor
of_parts (some (nano, id)) = cursor_of (parse_int nano) (parse_int id)

of_raw : Option Bytes → Result PageCursor
unfolding of_parts split_pair
of_raw none = err invalid_cursor
of_raw (some raw) = of_parts (split_pair raw)

unfoldable pub decode_cursor : Bytes → Result PageCursor
unfolding of_raw
decode_cursor s = of_raw (decode s)

abbrev some_cursor : Result PageCursor → Result (Option PageCursor)
some_cursor (ok p) = ok (some p)
some_cursor (err e) = err e

-- The cursor of a request: empty for the first page.
unfoldable pub before_of : Bytes → Result (Option PageCursor)
before_of [] = ok none
before_of (c ∷ cs) = some_cursor (decode_cursor (c ∷ cs))

-- The limit of a page is between 1 and 50, whatever the client asks for.
pub clamp_limit-bounds : (limit : ℤ) → (1 ≤ clamp_limit limit) × (clamp_limit limit ≤ max_page_size)
unfolding clamp_limit
clamp_limit-bounds limit = (
  ground (arith, ltb_ℤ_iff (pos 0) limit, ltb_ℤ_iff (pos 50) limit),
  ground (arith, ltb_ℤ_iff (pos 0) limit, ltb_ℤ_iff (pos 50) limit),
)

not_underscore : (c : ℕ) → IsIntByte c → (c == underscore) ≡ false
not_underscore c (inl minus) = rw minus refl
not_underscore c (inr (lo, hi)) = ground arith

split_pair-append :
    (xs ys : Bytes) → All IsIntByte xs → split_pair (xs ++ underscore ∷ ys) ≡ some (xs, ys)
unfolding split_pair
split_pair-append [] ys h = refl
split_pair-append (x ∷ xs) ys h = rw (not_underscore x h.0, split_pair-append xs ys h.1) refl

int-IsByte : (c : ℕ) → IsIntByte c → IsByte c
int-IsByte c (inl minus) = rw minus (omega arith)
int-IsByte c (inr (lo, hi)) = omega arith

raw_bytes :
    (xs ys : Bytes) → All IsIntByte xs → All IsIntByte ys → All IsByte (xs ++ underscore ∷ ys)
raw_bytes [] [] h k = (omega arith, tt)
raw_bytes [] (y ∷ ys) h k =
    let (first, later) = raw_bytes [] ys tt k.1 in (first, (int-IsByte y k.0, later))
raw_bytes (x ∷ xs) ys h k = (int-IsByte x h.0, raw_bytes xs ys h.1 k)

-- A cursor that was handed out is read back, for a time (in nanoseconds) and an id that fit in an int64.
pub decode_cursor-encode :
    (t id : ℤ)
    → InInt64 t
    → InInt64 id
    → decode_cursor (encode_cursor t id) ≡ ok (record { time = t; id = id })
unfolding decode_cursor encode_cursor of_raw of_parts cursor_of
decode_cursor-encode t id ht hid =
    rw
      (
        decode-encode (format_int t ++ underscore ∷ format_int id) (
            raw_bytes (format_int t) (format_int id) (format_int-IsIntByte t)
              (format_int-IsIntByte id)),
        split_pair-append (format_int t) (format_int id) (format_int-IsIntByte t),
        parse_int-format t ht,
        parse_int-format id hid,
      )
      refl

decode_cursor_nil : decode_cursor [] ≡ err invalid_cursor
unfolding decode_cursor of_raw of_parts split_pair
decode_cursor_nil = rw decode_nil refl

of_cursor : (s : Bytes) (c : PageCursor) → decode_cursor s ≡ ok c → before_of s ≡ ok (some c)
unfolding before_of
of_cursor [] c h = no_cursor (sym decode_cursor_nil ∙ h)
  where
    no_cursor : {P : Type 0} → err invalid_cursor ≡ ok c → P
    no_cursor e = absurd (cc)
of_cursor (x ∷ xs) c h = ap some_cursor h

-- A cursor that was handed out starts the next page at the time (in nanoseconds) and the id that it was
-- made of, when both fit in an int64.
pub before_of-encode :
    (t id : ℤ)
    → InInt64 t
    → InInt64 id
    → before_of (encode_cursor t id) ≡ ok (some (record { time = t; id = id }))
before_of-encode t id ht hid =
    of_cursor (encode_cursor t id) (record { time = t; id = id }) (decode_cursor-encode t id ht hid)
