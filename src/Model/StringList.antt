-- ===== src/Model/StringList.antt =====
-- internal/model/stringlist.go: a list of strings in a JSON column. `encoding/json` is a parameter; a Go
-- slice may be nil, which is `none`.
use pluto_feed.Prelude.{Option, none, some, List, [], ◌∷◌, Bytes, codes}
use pluto_feed.Apierror.{Error, other, wrapped, Result, ok, err}

abbrev pub StringList : Type 0
StringList = Option (List Bytes)

-- What a driver hands over.
pub data Source : Type 0 where
  null other_type : Source
  bytes string : Bytes → Source

pub record ListJson : Type 0 where
  pub marshal : List Bytes → Option Bytes
  pub unmarshal : Bytes → Option StringList

abbrev pub marshal_list_failed : Error
marshal_list_failed = wrapped (other 70)

abbrev pub unsupported_type : Error
unsupported_type = other 71

abbrev pub unmarshal_list_failed : Error
unmarshal_list_failed = wrapped (other 72)

module _ (json : ListJson) where
  abbrev pub marshalled : Option Bytes → Result Bytes
  marshalled none = err marshal_list_failed
  marshalled (some b) = ok b

  unfoldable pub value : StringList → Result Bytes
  value none = ok (codes "[]")
  value (some l) = marshalled (json.marshal l)

  abbrev pub unmarshalled : Option StringList → Result StringList
  unmarshalled none = err unmarshal_list_failed
  unmarshalled (some l) = ok l

  abbrev pub scan_bytes : Bytes → Result StringList
  scan_bytes [] = ok (some [])
  scan_bytes (c ∷ cs) = unmarshalled (json.unmarshal (c ∷ cs))

  -- The new list; an error leaves the old one.
  unfoldable pub scan : Source → Result StringList
  scan null = ok (some [])
  scan (bytes b) = scan_bytes b
  scan (string s) = scan_bytes s
  scan other_type = err unsupported_type

  abbrev pub or_empty : StringList → List Bytes
  or_empty none = []
  or_empty (some l) = l
