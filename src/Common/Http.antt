-- ===== src/Common/Http.antt =====
-- Requests and responses of net/http, as far as the handlers read and write them.
use llm_inference_control_pl.Common.{ℕ, List, Option, none, some, String, Assoc, lookup, insert}

-- `body` is none if reading the body fails.
pub record HttpRequest : Type 0 where
  pub method : String
  pub path : String
  pub headers : Assoc String
  pub body : Option (List ℕ)

-- What is written to the client: bytes, a fixed text, or a format with its arguments.
pub data Payload : Type 0 where
  bytes : List ℕ → Payload
  text : String → Payload
  format : String → List String → Payload

pub record Response : Type 0 where
  pub status : ℕ
  pub headers : Assoc String
  pub payload : Payload

-- Header.Get: "" if there is none
abbrev pub or_empty : Option String → String
or_empty none = ""
or_empty (some v) = v

abbrev pub get_header : String → Assoc String → String
get_header k hs = or_empty (lookup k hs)

-- http.Error, over the headers that were set before
abbrev pub http_error : Assoc String → Payload → ℕ → Response
http_error hs message code = record {
  status = code;
  headers = insert "Content-Type" "text/plain; charset=utf-8" hs;
  payload = message;
}

abbrev pub status_ok : ℕ
status_ok = 200

abbrev pub status_bad_request : ℕ
status_bad_request = 400

abbrev pub status_unauthorized : ℕ
status_unauthorized = 401

abbrev pub status_not_found : ℕ
status_not_found = 404

abbrev pub status_method_not_allowed : ℕ
status_method_not_allowed = 405

abbrev pub status_too_many_requests : ℕ
status_too_many_requests = 429

abbrev pub status_bad_gateway : ℕ
status_bad_gateway = 502

abbrev pub status_service_unavailable : ℕ
status_service_unavailable = 503

abbrev pub status_gateway_timeout : ℕ
status_gateway_timeout = 504
