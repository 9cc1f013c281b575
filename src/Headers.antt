-- ===== src/Headers.antt =====
-- Headers as maps and as JSON: HeaderJSONToMap of internal/storage/util.go, headerJSONToMap and
-- flattenHeaders of internal/server/util.go, marshalHeaders of internal/server/tunnel.go, and
-- replayHeaders and marshalFlatHeaders of internal/server/http.go. encoding/json's two functions on
-- headers are parameters, and so is the canonical spelling of a header's name, which http.Header's
-- Set writes. A map's keys are visited in the order of the list.
pub mod Flat
use vexlo.Common.{
  Bytes, codes, List, [], ◌∷◌, ◌++◌, Option, none, some, str_eq, if◌then◌else◌, Map, put,
}

-- http.Header
abbrev pub Headers : Type 0
Headers = Map (List Bytes)

-- json.Marshal and json.Unmarshal on http headers; `none` is their error.
pub record HeaderJson : Type 0 where
  pub marshal : Headers → Option Bytes
  pub unmarshal : Bytes → Option Headers

-- strings.Join(values, ", ")
unfoldable pub join_values : List Bytes → Bytes
join_values [] = []
join_values (value ∷ []) = value
join_values (value ∷ next ∷ rest) = value ++ codes ", " ++ join_values (next ∷ rest)

-- flattenHeaders, and the loops of the two functions that read JSON
unfoldable pub flatten_headers : Headers → Map Bytes
unfolding join_values
flatten_headers [] = []
flatten_headers ((key, values) ∷ rest) = (key, join_values values) ∷ flatten_headers rest

abbrev pub flatten_parsed : Option Headers → Map Bytes
unfolding flatten_headers
flatten_parsed none = []
flatten_parsed (some headers) = flatten_headers headers

abbrev pub text_or_empty : Option Bytes → Bytes
text_or_empty none = []
text_or_empty (some buf) = buf

module _ (json : HeaderJson) where
  -- HeaderJSONToMap, and headerJSONToMap
  unfoldable pub header_json_to_map : Bytes → Map Bytes
  unfolding flatten_parsed
  header_json_to_map raw = if str_eq raw [] then [] else flatten_parsed (json.unmarshal raw)

  -- marshalHeaders
  unfoldable pub marshal_headers : Headers → Bytes
  marshal_headers headers = text_or_empty (json.marshal headers)

-- A loop of headers.Set(key, value), over the rest of the map.
unfoldable pub set_headers : (Bytes → Bytes) → Map Bytes → Headers → Headers
set_headers canonical [] headers = headers
set_headers canonical ((key, value) ∷ rest) headers =
    set_headers canonical rest (put (canonical key) (value ∷ []) headers)

module _ (json : HeaderJson) (canonical : Bytes → Bytes) where
  -- replayHeaders, for the payload's headers and the original's
  unfoldable pub replay_headers : Map Bytes → Bytes → Headers
  unfolding set_headers header_json_to_map
  replay_headers [] original = set_headers canonical (header_json_to_map json original) []
  replay_headers (pair ∷ rest) original = set_headers canonical (pair ∷ rest) []

  -- marshalFlatHeaders
  unfoldable pub marshal_flat_headers : Map Bytes → Bytes
  unfolding set_headers marshal_headers
  marshal_flat_headers [] = codes "{}"
  marshal_flat_headers (pair ∷ rest) = marshal_headers json (set_headers canonical (pair ∷ rest) [])
