-- ===== src/Tests/Rmc.antt =====
-- The theorems on RMC messages, at messages with two bytes of parameters.
use splatit.Base.{◌≡◌, arith, [], ◌∷◌, ◌++◌, length, ok, true, false}
use splatit.Base.Bytes.{Bytes}
use splatit.Rmc.Request
use splatit.Rmc.Request.{Request}
use splatit.Rmc.Request.RoundTrip.{decode-encode_request}
use splatit.Rmc.Response
use splatit.Rmc.Response.{Response}
use splatit.Rmc.Response.RoundTrip.{decode-encode_response}

abbrev ask : Request
ask = record { protocol_id = 127; extended_protocol_id = 300; call_id = 70000; method_id = 5 }

abbrev blank_request : Request
blank_request = record { protocol_id = 0; extended_protocol_id = 0; call_id = 0; method_id = 0 }

abbrev params : Bytes
params = 1 ∷ 2 ∷ []

decode-encode_request_example :
    Request.decode blank_request (Request.encode ask (length params) ++ params)
    ≡ ok (Request.RoundTrip.kept blank_request ask, params)
decode-encode_request_example =
    decode-encode_request blank_request ask params
      (record {
        protocol_small = omega arith;
        extended_small = omega arith;
        call_small = omega arith;
        method_small = omega arith;
      })
      (omega arith)

abbrev failure : Response
failure = record {
  protocol_id = 10;
  extended_protocol_id = 0;
  success = false;
  call_id = 70000;
  method_id = 0;
  error = 65537;
}

abbrev blank_response : Response
blank_response = record failure { protocol_id = 0; success = true; call_id = 0; error = 0 }

decode-encode_response_example :
    Response.decode blank_response (Response.encode failure (length params) ++ params)
    ≡ ok (Response.RoundTrip.kept blank_response failure, params)
decode-encode_response_example =
    decode-encode_response blank_response failure params
      (record {
        extended_small = omega arith;
        call_small = omega arith;
        method_small = omega arith;
        error_small = omega arith;
      })
      (omega arith)
