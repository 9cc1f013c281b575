-- ===== src/Capture/Limits.antt =====
-- How much of a body and of headers is kept.
use vexlo.Common.{
  ℕ, ◌+◌, ◌*◌, ◌≤◌, ◌≡◌, ℤ, Bytes, false, Option, arith, length, take, int_le, to_nat,
  length-append, length-take,
}
use vexlo.Config.{Config}
use vexlo.Capture.{
  capture_body, hosted_capture_limit, decode_response_body, capture_response_body, truncated,
}

-- The server keeps bodies up to a limit of one byte to 16 KiB, whatever it is configured with.
hosted_capture_limit-bounds :
    (c : Config)
    → (int_le (hosted_capture_limit c) 0 ≡ false) × (to_nat (hosted_capture_limit c) ≤ 16 * 1024)
unfolding hosted_capture_limit
hosted_capture_limit-bounds c = ground arith

capture_body-bounded :
    (raw : Bytes) (limit : ℤ)
    → int_le limit 0 ≡ false
    → length (capture_body raw limit) ≤ to_nat limit + length truncated
unfolding capture_body
capture_body-bounded raw limit positive =
    ground
      (arith, length-append (take (to_nat limit) raw) truncated, length-take (to_nat limit) raw)

-- What is kept of a response's body is at most 16 KiB and the note of the cut, at every configured
-- limit and however much the body unpacks to.
pub capture_response_body-bounded :
    (c : Config) (gunzip : ℕ → Bytes → Option Bytes) (content_encoding raw : Bytes)
    → length (capture_response_body gunzip content_encoding raw (hosted_capture_limit c))
      ≤ 16 * 1024 + length truncated
unfolding capture_response_body
capture_response_body-bounded c gunzip content_encoding raw =
    let (positive, small) = hosted_capture_limit-bounds c in
    omega (
      arith,
      small,
      capture_body-bounded
          (decode_response_body gunzip content_encoding raw (hosted_capture_limit c))
          (hosted_capture_limit c) positive,
    )
