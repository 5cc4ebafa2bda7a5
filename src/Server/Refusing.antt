-- ===== src/Server/Refusing.antt =====
-- mcp/server/server.go and tracing.go: the declarations of the tools against their handlers, and spans.
use muto.Prelude.{
  ◌≡◌, ◌⊎◌, inl, inr, refl, arith, ap, ◌∙◌, String, Bool, false, ◌||◌, none, some, List, [], ◌∷◌,
  err, Result-cases, All, if◌then◌else◌,
}
use muto.Tools.{Scheduler}
use muto.Tracing.{Traced, error_status}
use muto.Server.Library.{Request, Mcp, Documented, Json, Formats}
use muto.Server.Declarations.{
  schedule_agent_job_tool, get_job_status_tool, cancel_job_tool, list_active_agents_tool,
  describe_tenant_tool, Tool, Param, string, number,
}
use muto.Server.{
  ToolAnswer, Handler, registered_tools, handle_schedule_agent_job, handle_get_job_status,
  handle_cancel_job, handle_list_active_agents, handle_describe_tenant, wrap_tool_handler, failed,
}
use muto.Server.Serving.{is_err}

-- A parameter that the tool declares as a required string, and the request does not have.
abbrev is_missing : Request → Param → Bool
is_missing req p = elim p.type [
  | string ↦ if p.required then is_err (req.require_string p.name) else false
  | number ↦ false
]

abbrev pub lacks_string : Request → List Param → Bool
lacks_string req [] = false
lacks_string req (p ∷ ps) = is_missing req p || lacks_string req ps

module _ {S R : Type 0} (mcp : Mcp R) where
  -- An error result without a Go error, the state as it was, and one span more, with the error's text.
  abbrev pub IsRefused : Traced S → Traced S × ToolAnswer R → Type 0
  IsRefused t out =
      (text name : String) × (out.0.inner ≡ t.inner)
      × (out.1 ≡ (some (mcp.new_tool_result_error text), none))
      × (out.0.spans ≡ record { name = name; recorded = []; status = error_status text } ∷ t.spans)

  abbrev pub IsChecked : Request → Traced S → Tool × Handler (Traced S) R → Type 0
  IsChecked req t tool = (lacks_string req tool.0.params ≡ false) ⊎ IsRefused t (tool.1 t req)

module _ {S F R : Type 0} (mcp : Mcp R) (law : Documented mcp) (json : Json) (fmt : Formats)
    (text : F → String) (sched : Scheduler S F) where
  -- A refused call, seen through its span.
  wrap-IsRefused :
      (name t : String) (x : Traced S) (req : Request) (h : Handler S R)
      → h x.inner req ≡ (x.inner, failed mcp t)
      → IsRefused mcp x (wrap_tool_handler mcp name h x req)
  unfolding wrap_tool_handler
  wrap-IsRefused name t x req h same =
      rw same (t, name, refl, refl, rw (law.error_is_error t, law.error_content t) refl)

  -- A tool with one string, which its handler reads first.
  single-IsChecked :
      (name : String) (x : Traced S) (req : Request) (tool : Tool) (h : Handler S R) (key : String)
      → lacks_string req tool.params ≡ is_err (req.require_string key)
      → ((e : String) → req.require_string key ≡ err e → h x.inner req ≡ (x.inner, failed mcp e))
      → IsChecked mcp req x (tool, wrap_tool_handler mcp name h)
  single-IsChecked name x req tool h key same refuses =
      elim (Result-cases (req.require_string key)) [
        | inl (value, k) ↦ inl (same ∙ ap is_err k)
        | inr (e, k) ↦ inr (wrap-IsRefused name e x req h (refuses e k))
      ]

  scheduling-IsChecked :
      (name : String) (x : Traced S) (req : Request)
      → IsChecked mcp req x (
        schedule_agent_job_tool,
        wrap_tool_handler mcp name (handle_schedule_agent_job mcp json fmt text sched),
      )
  unfolding handle_schedule_agent_job
  scheduling-IsChecked name x req =
      let h = handle_schedule_agent_job mcp json fmt text sched in
      elim (Result-cases (req.require_string "job_id")) [
        | inr (e, k₁) ↦ inr (wrap-IsRefused name e x req h (rw k₁ refl))
        | inl (id, k₁) ↦ elim (Result-cases (req.require_string "tenant_id")) [
          | inr (e, k₂) ↦ inr (wrap-IsRefused name e x req h (rw (k₁, k₂) refl))
          | inl (tenant, k₂) ↦ elim (Result-cases (req.require_string "image")) [
            | inr (e, k₃) ↦ inr (wrap-IsRefused name e x req h (rw (k₁, k₂, k₃) refl))
            | inl (image, k₃) ↦ elim (Result-cases (req.require_string "trigger_source")) [
              | inr (e, k₄) ↦ inr (wrap-IsRefused name e x req h (rw (k₁, k₂, k₃, k₄) refl))
              | inl (source, k₄) ↦ inl (rw (k₁, k₂, k₃, k₄) refl)
            ]
          ]
        ]
      ]

  -- Every tool that is registered with the server refuses a request that lacks a string which its
  -- declaration in server.go marks as required, the trigger source of schedule_agent_job
  -- included: an error result, no Go error, the scheduler untouched, and one span, whose error
  -- status is the text of the result.
  pub registered_tools-IsChecked :
      (x : Traced S) (req : Request)
      → All (IsChecked mcp req x) (registered_tools mcp json fmt text sched)
  unfolding registered_tools handle_get_job_status handle_cancel_job handle_list_active_agents
      handle_describe_tenant
  registered_tools-IsChecked x req = (
    scheduling-IsChecked "mcp.schedule_agent_job" x req,
    (
      single-IsChecked "mcp.get_job_status" x req get_job_status_tool
          (handle_get_job_status mcp json fmt text sched) "job_id" (ground arith)
          (λ e k. rw k refl),
      (
        single-IsChecked "mcp.cancel_job" x req cancel_job_tool
            (handle_cancel_job mcp json fmt text sched) "job_id" (ground arith) (λ e k. rw k refl),
        (
          single-IsChecked "mcp.list_active_agents" x req list_active_agents_tool
              (handle_list_active_agents mcp json fmt text sched) "tenant_id" (ground arith)
              (λ e k. rw k refl),
          (
            single-IsChecked "mcp.describe_tenant" x req describe_tenant_tool
                (handle_describe_tenant mcp json fmt text sched) "tenant_id" (ground arith)
                (λ e k. rw k refl),
            tt,
          ),
        ),
      ),
    ),
  )
