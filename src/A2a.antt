-- ===== src/A2a.antt =====
-- core/a2a/a2a.go and client.go: the client of an A2A gateway.
pub mod Requests
use muto.Prelude.{
  ℕ, String, ◌<>◌, ◌==◌, Bool, true, false, Option, none, some, List, [], ◌∷◌, Result, ok, err, ltb,
  leb, if◌then◌else◌,
}
use muto.Prelude.Int.{ℤ, pos, ltb_ℤ, leb_ℤ}
use muto.Prelude.Dict.{Dict, insert}

pub data Method : Type 0 where
  get post : Method

-- http.Request, as the client fills it in. Bodies and payloads are bytes.
pub record HttpRequest (B : Type 0) : Type 0 where
  pub method : Method
  pub url : String
  pub header : Dict String
  pub body : Option B

-- The response's status, and what reading its body gives.
pub record HttpResponse (B : Type 0) : Type 0 where
  pub status_code : ℤ
  pub read_body : Result String B

pub record GatewayResponse (B : Type 0) : Type 0 where
  pub task_id : String
  pub state : String
  pub output : B

pub record TaskResult (B : Type 0) : Type 0 where
  pub task_id : String
  pub state : String
  pub output : B

-- net/http and encoding/json. `W` is the network; `parse_url` is the check that
-- NewRequestWithContext makes, and `close` the closing of the body of the last response.
pub record Http (W B : Type 0) : Type 0 where
  pub marshal_task : String → B → Result String B
  pub parse_url : String → Option String
  pub send : W → HttpRequest B → W × Result String (HttpResponse B)
  pub close : W → W
  pub unmarshal : B → Result String (GatewayResponse B)

pub data Error : Type 0 where
  no_gateway_url : Error
  marshal_failed request_failed http_failed read_failed unmarshal_failed : String → Error
  gateway_returned : ℤ → Error

pub record Config : Type 0 where
  pub gateway_url : String
  pub auth_token : String

pub record A2aClient : Type 0 where
  pub gateway_url : String
  pub auth_token : String

unfoldable pub new : Config → Result Error A2aClient
new cfg =
    if cfg.gateway_url == ""
    then err no_gateway_url
    else ok (record { gateway_url = cfg.gateway_url; auth_token = cfg.auth_token })

module _ {W B : Type 0} (http : Http W B) where
  task_result : Result String (GatewayResponse B) → Result Error (TaskResult B)
  task_result (err e) = err (unmarshal_failed e)
  task_result (ok gr) = ok (record { task_id = gr.task_id; state = gr.state; output = gr.output })

  decoded : Result String B → Result Error (TaskResult B)
  unfolding task_result
  decoded (err e) = err (read_failed e)
  decoded (ok raw) = task_result (http.unmarshal raw)

  -- What doRequest makes of a response.
  unfoldable pub result_of : HttpResponse B → Result Error (TaskResult B)
  unfolding decoded
  result_of resp =
      if ltb_ℤ resp.status_code (pos 200)
      then err (gateway_returned resp.status_code)
      else if leb_ℤ (pos 300) resp.status_code
      then err (gateway_returned resp.status_code)
      else decoded resp.read_body

  -- The body is closed whatever follows.
  answered : W × Result String (HttpResponse B) → W × Result Error (TaskResult B)
  unfolding result_of
  answered (w, err e) = (w, err (http_failed e))
  answered (w, ok resp) = (http.close w, result_of resp)

  unfoldable pub do_request : W → HttpRequest B → W × Result Error (TaskResult B)
  unfolding answered
  do_request w req = answered (http.send w req)

module _ (c : A2aClient) where
  -- `if c.authToken != "" { req.Header.Set("Authorization", …) }`
  unfoldable pub authorized : Dict String → Dict String
  authorized header =
      if c.auth_token == ""
      then header
      else insert "Authorization" ("Bearer " <> c.auth_token) header

module _ {B : Type 0} (c : A2aClient) where
  unfoldable pub send_request : B → HttpRequest B
  unfolding authorized
  send_request body = record {
    method = post;
    url = c.gateway_url <> "/tasks/send";
    header = authorized c (insert "Content-Type" "application/json" []);
    body = some body;
  }

  unfoldable pub status_request : String → HttpRequest B
  unfolding authorized
  status_request task_id = record {
    method = get;
    url = c.gateway_url <> ("/tasks/" <> (task_id <> "/status"));
    header = authorized c [];
    body = none;
  }

module _ {W B : Type 0} (http : Http W B) (c : A2aClient) where
  -- The request goes out if its address can be parsed.
  created : W → HttpRequest B → Option String → W × Result Error (TaskResult B)
  unfolding do_request
  created w req (some e) = (w, err (request_failed e))
  created w req none = do_request http w req

  sending : W → Result String B → W × Result Error (TaskResult B)
  unfolding created send_request
  sending w (err e) = (w, err (marshal_failed e))
  sending w (ok body) = let req = send_request c body in created w req (http.parse_url req.url)

  unfoldable pub send_task : W → String → B → W × Result Error (TaskResult B)
  unfolding sending
  send_task w agent_id payload = sending w (http.marshal_task agent_id payload)

  unfoldable pub get_task_status : W → String → W × Result Error (TaskResult B)
  unfolding created status_request
  get_task_status w task_id =
      let req = status_request c task_id in created w req (http.parse_url req.url)
