-- ===== src/Tests/Limits.antt =====
-- Rate limits, slots, captures and host names.
use vexlo.Common.{
  ◌+◌, ◌*◌, ◌≤◌, ◌≡◌, ◌≢◌, Bytes, codes, [], ◌∷◌, ◌++◌, Option, none, some, arith, length, take,
  drop,
}
use vexlo.RateLimit.{minute, new_limiter}
use vexlo.RateLimit.Run.{Requests, allowed_from, allowed_from-le}
use vexlo.Capture.{Headers, HeaderJson, sanitize_header_json}
use vexlo.Capture.Redaction.{IsShown, sanitize_header_json-IsShown}

abbrev busy_second : Requests
busy_second = (2 * minute, codes "a") ∷ (2 * minute, codes "b") ∷ (2 * minute + 1, codes "a") ∷ []

allowed_from-le_example : allowed_from 9 1 (codes "a") busy_second new_limiter ≤ 2 * 1
allowed_from-le_example =
    allowed_from-le 9 1 (2 * minute) (3 * minute) (codes "a") busy_second new_limiter tt
      (omega arith) (omega arith)
      (omega arith, omega arith, (omega arith, omega arith, (omega arith, omega arith, tt)))

abbrev cookies : Headers
cookies = (codes "Cookie", codes "k=v" ∷ []) ∷ []

abbrev write_json : Headers → Option Bytes
write_json ((key, value ∷ []) ∷ []) = some (length key ∷ key ++ value)
write_json headers = none

abbrev read_json : Bytes → Option Headers
read_json [] = none
read_json (n ∷ rest) = some ((take n rest, drop n rest ∷ []) ∷ [])

-- An encoding of a single header with a single value.
abbrev plain_json : HeaderJson
plain_json = record { marshal = write_json; unmarshal = read_json }

abbrev cookie_text : Bytes
cookie_text = 6 ∷ codes "Cookiek=v"

sanitize_header_json-IsShown_example :
    (cookie_text ≡ [] → sanitize_header_json plain_json cookie_text ≡ cookie_text)
    × (cookie_text ≢ []
        → IsShown plain_json cookie_text
            (sanitize_header_json plain_json cookie_text)
            (read_json cookie_text))
sanitize_header_json-IsShown_example = sanitize_header_json-IsShown plain_json cookie_text
