-- ===== src/Req.antt =====
-- Requests and the errors of responses (src/req.rs), and `base64url`, `read_json` of src/util.rs.
use acme_lib.Prelude.{
  String, ◌<>◌, false, Option, none, some, ◌∷◌, ◌⊎◌, inl, inr, ◌==◌, if◌then◌else◌, Bytes,
}
use acme_lib.Std.{decimal}
use acme_lib.Api.{ApiProblem}
use acme_lib.Crates.{Crates, Request, Method}
use acme_lib.Outcome.{Outcome, or_json}
use acme_lib.Persist.{Persist}
use acme_lib.World.{Act, exchange}

abbrev new_request : Method → String → Request
new_request method url = record {
  method = method;
  url = url;
  content_type = none;
  timeout_connect = none;
  timeout_read = none;
  timeout_write = none;
  payload = none;
}

abbrev pub req_configure : Request → Request
req_configure req = record req {
  timeout_connect = some 30000;
  timeout_read = some 30000;
  timeout_write = some 30000;
}

abbrev pub get_request : String → Request
get_request url = req_configure (new_request Method.get url)

abbrev pub head_request : String → Request
head_request url = req_configure (new_request Method.head url)

abbrev pub post_request : String → String → Request
post_request url body =
    let req = record (new_request Method.post url) {
      content_type = some "application/jose+json";
    } in
    record (req_configure req) { payload = some body }

module _ (C : Crates) where
  -- `req_safe_read_body`
  abbrev pub req_safe_read_body : C.Response → String
  req_safe_read_body res = C.read_to_string res

  abbrev problem_or_fail : String → C.JsonError ⊎ ApiProblem → ApiProblem
  problem_or_fail body (inr p) = p
  problem_or_fail body (inl e) = record {
    type = "problemJsonFail";
    detail = some (
        "Failed to deserialize application/problem+json ("
        <> C.json_error_display e
        <> ") body: "
        <> body);
    subproblems = none;
  }

  -- The problem that `req_handle_error` makes of a response that is not ok.
  unfoldable pub problem_of : C.Response → ApiProblem
  problem_of res =
      if C.content_type res == "application/problem+json"
      then problem_or_fail (req_safe_read_body res) (C.problem_from_str (req_safe_read_body res))
      else record {
        type = "httpReqError";
        detail = some (
            decimal (C.status res)
            <> " "
            <> C.status_text res
            <> " body: "
            <> req_safe_read_body res);
        subproblems = none;
      }

  unfoldable pub req_handle_error : C.Response → ApiProblem ⊎ C.Response
  req_handle_error res = if C.is_ok res then inr res else inl (problem_of res)

  abbrev pub header_or_problem : String → Option String → ApiProblem ⊎ String
  header_or_problem name (some v) = inr v
  header_or_problem name none =
      inl (record { type = "Missing header: " <> name; detail = none; subproblems = none })

  unfoldable pub req_expect_header : C.Response → String → ApiProblem ⊎ String
  req_expect_header res name = header_or_problem name (C.header res name)

  -- `read_json`, with the deserializer of the type that is read
  unfoldable pub read_json : {A : Type 0} → (String → C.JsonError ⊎ A) → C.Response → Outcome C A
  read_json from_str res = or_json (from_str (req_safe_read_body res))

  -- `base64url`: the URL-safe alphabet without padding
  unfoldable pub base64url : Bytes → String
  base64url input = C.encode_config input C.url_safe false

module _ {C : Crates} {P : Persist C} where
  -- A request and its response, on the network and in the trace.
  unfoldable pub send : Request → Act C P C.Response
  send req w =
      let (res, net) = C.call_request req w.net in
      (Outcome.ok res, record w { net = net; trace = exchange req res ∷ w.trace })

  abbrev pub req_get : String → Act C P C.Response
  req_get url = send (get_request url)

  abbrev pub req_head : String → Act C P C.Response
  req_head url = send (head_request url)

  abbrev pub req_post : String → String → Act C P C.Response
  req_post url body = send (post_request url body)
