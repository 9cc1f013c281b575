-- ===== src/Protocol/Kind.antt =====
-- The kinds of message, protocol.go's Type constants.
use vexlo.Common.{Bytes, codes}

abbrev pub register : Bytes
register = codes "register"

abbrev pub registered : Bytes
registered = codes "registered"

abbrev pub forward_request : Bytes
forward_request = codes "forward_request"

abbrev pub forward_response : Bytes
forward_response = codes "forward_response"

abbrev pub error : Bytes
error = codes "error"

abbrev pub ping : Bytes
ping = codes "ping"

abbrev pub pong : Bytes
pong = codes "pong"
