-- ===== src/A2a/Requests.antt =====
-- core/a2a/client.go: what a call that succeeds has sent and received.
use muto.Prelude.{
  ◌≡◌, inl, inr, refl, String, ◌<>◌, ◌==◌, none, some, [], ok, Result-cases, Option-cases,
  Bool-cases, arith, if◌then◌else◌,
}
use muto.Prelude.Int.{ℤ, pos, ◌≤ℤ◌}
use muto.Prelude.Dict.{Dict, lookup, insert, lookup-insert_self}
use muto.A2a.{
  Http, HttpRequest, HttpResponse, GatewayResponse, TaskResult, A2aClient, result_of, do_request,
  authorized, send_request, status_request, send_task, get_task_status,
}

-- A status of 200 to 299.
abbrev pub IsSuccess : ℤ → Type 0
IsSuccess code = (pos 200 ≤ℤ code) × (code ≤ℤ pos 299)

module _ {W B : Type 0} (http : Http W B) where
  -- The request went out in this state and was answered, with a status of success and a body that
  -- decodes to the result; the body is closed.
  abbrev pub IsExchange : W → HttpRequest B → W → TaskResult B → Type 0
  IsExchange w req w' r =
      (resp : HttpResponse B) × (raw : B) × (gr : GatewayResponse B) × ((http.send w req).1
        ≡ ok resp)
      × IsSuccess resp.status_code
      × (resp.read_body ≡ ok raw)
      × (http.unmarshal raw ≡ ok gr)
      × (r ≡ record { task_id = gr.task_id; state = gr.state; output = gr.output })
      × (w' ≡ http.close (http.send w req).0)

  do_request-IsExchange :
      (w : W) (req : HttpRequest B) (r : TaskResult B)
      → (do_request http w req).1 ≡ ok r
      → IsExchange w req (do_request http w req).0 r
  unfolding do_request result_of
  do_request-IsExchange w req r h = elim (Result-cases (http.send w req).1) [
    | inr (e, k) ↦ ground arith
    | inl (resp, k) ↦ elim (Result-cases resp.read_body) [
      | inr (e, l) ↦ ground arith
      | inl (raw, l) ↦ elim (Result-cases (http.unmarshal raw)) [
        | inr (e, m) ↦ ground arith
        | inl (gr, m) ↦
            (resp, raw, gr, k, (ground arith, ground arith), l, m, ground arith, ground arith)
      ]
    ]
  ]

module _ {B : Type 0} (c : A2aClient) where
  -- The token is sent if there is one, and no other one ever.
  abbrev pub IsAuthorized : HttpRequest B → Type 0
  IsAuthorized req =
      lookup "Authorization" req.header
      ≡ (if c.auth_token == "" then none else some ("Bearer " <> c.auth_token))

module _ (c : A2aClient) where
  lookup-authorized :
      (header : Dict String)
      → lookup "Authorization" header ≡ none
      → lookup "Authorization" (authorized c header)
        ≡ (if c.auth_token == "" then none else some ("Bearer " <> c.auth_token))
  unfolding authorized
  lookup-authorized header h = elim (Bool-cases (c.auth_token == "")) [
    | inl k ↦ rw k h
    | inr k ↦ rw k (lookup-insert_self "Authorization" ("Bearer " <> c.auth_token) header)
  ]

module _ {B : Type 0} (c : A2aClient) where
  send_request-IsAuthorized : (body : B) → IsAuthorized c (send_request c body)
  unfolding send_request insert lookup
  send_request-IsAuthorized body =
      lookup-authorized c (insert "Content-Type" "application/json" []) refl

module _ (c : A2aClient) where
  status_request-IsAuthorized :
      (B : Type 0) (task_id : String) → IsAuthorized {B = B} c (status_request c task_id)
  unfolding status_request lookup
  status_request-IsAuthorized B task_id = lookup-authorized c [] refl

module _ {W B : Type 0} (http : Http W B) (c : A2aClient) where
  -- A SendTask that returns a result has encoded the task and sent it, with the token if there is one,
  -- in one request; the gateway answered with a status from 200 to 299, the result is what the body
  -- decodes to, and the body is closed.
  pub send_task_ok :
      (w : W) (agent_id : String) (payload : B) (r : TaskResult B)
      → (send_task http c w agent_id payload).1 ≡ ok r
      → (body : B) × (http.marshal_task agent_id payload ≡ ok body)
        × IsAuthorized c (send_request c body)
        × IsExchange http w (send_request c body) (send_task http c w agent_id payload).0 r
  unfolding send_task
  send_task_ok w agent_id payload r h = elim (Result-cases (http.marshal_task agent_id payload)) [
    | inr (e, k) ↦ ground arith
    | inl (body, k) ↦ elim (Option-cases (http.parse_url (send_request c body).url)) [
      | inr (e, l) ↦ ground arith
      | inl l ↦ (
        body,
        k,
        send_request-IsAuthorized c body,
        rw (k, l) (do_request-IsExchange http w (send_request c body) r (rw (k, l) at h)),
      )
    ]
  ]

  -- The same of GetTaskStatus.
  pub get_task_status_ok :
      (w : W) (task_id : String) (r : TaskResult B)
      → (get_task_status http c w task_id).1 ≡ ok r
      → IsAuthorized {B = B} c (status_request c task_id)
        × IsExchange http w (status_request c task_id) (get_task_status http c w task_id).0 r
  unfolding get_task_status
  get_task_status_ok w task_id r h =
      elim (Option-cases (http.parse_url (status_request {B = B} c task_id).url)) [
        | inr (e, l) ↦ ground arith
        | inl l ↦ (
          status_request-IsAuthorized c B task_id,
          rw l (do_request-IsExchange http w (status_request c task_id) r (rw l at h)),
        )
      ]
