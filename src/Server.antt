-- ===== src/Server.antt =====
-- mcp/server/server.go and tracing.go: the MCP tools, their arguments, and the spans around them.
pub mod Library
pub mod Declarations
pub mod Refusing
pub mod Serving
pub mod Stopping
pub mod Observing
use muto.Prelude.{
  String, ◌<>◌, Bool, true, false, Option, none, some, List, [], ◌∷◌, Result, ok, err,
  if◌then◌else◌,
}
use muto.Prelude.Int.{ℤ}
use muto.Agent.{Status, Job}
use muto.Tools.{
  Scheduler, Failure, TenantInfo, get_status, list_failed, schedule_agent_job, get_job_status,
  cancel_job, list_active_agents, describe_tenant,
}
use muto.Tracing.{Span, Traced, SpanStatus, unset_status, error_status}
use Library.{Float64, finite, is_below_zero, is_above, int32_of, Request, Mcp, Json, Formats}
use Declarations.{
  Tool, schedule_agent_job_tool, get_job_status_tool, cancel_job_tool, list_active_agents_tool,
  describe_tenant_tool,
}

-- `(*mcp.CallToolResult, error)`, either of which may be nil.
abbrev pub ToolAnswer : Type 0 → Type 0
ToolAnswer R = Option R × Option String

abbrev pub Handler : Type 0 → Type 0 → Type 0
Handler S R = S → Request → S × ToolAnswer R

-- `err.Error()` of a wrapped error.
abbrev pub failure_text : {F : Type 0} → (F → String) → Failure F → String
failure_text text (get_status e) = "get status: " <> text e
failure_text text (list_failed e) = "list active: " <> text e

module _ {R : Type 0} (mcp : Mcp R) where
  -- `return mcp.NewToolResultError(text), nil`
  abbrev pub failed : String → ToolAnswer R
  failed text = (some (mcp.new_tool_result_error text), none)

  abbrev pub succeeded : String → ToolAnswer R
  succeeded text = (some (mcp.new_tool_result_text text), none)

  -- What follows a RequireString call: its error is the tool's answer.
  abbrev pub requiring :
      {S : Type 0} → S → Result String String → (String → S × ToolAnswer R) → S × ToolAnswer R
  requiring s (err e) rest = (s, failed e)
  requiring s (ok value) rest = rest value

  abbrev pub marshalled : String → Result String String → ToolAnswer R
  marshalled what (err e) = failed (what <> e)
  marshalled what (ok text) = succeeded text

  -- The answer to a call that returns an error only.
  abbrev pub confirmed :
      {S F : Type 0} → (F → String) → String → String → S × Option F → S × ToolAnswer R
  confirmed text prefix message (s, some e) = (s, failed (prefix <> text e))
  confirmed text prefix message (s, none) = (s, succeeded message)

  -- The answer to a call that returns data, which json.Marshal prints.
  abbrev pub printed :
      {S F A : Type 0}
      → (F → String)
      → String
      → String
      → (A → Result String String)
      → S × Result F A
      → S × ToolAnswer R
  printed text prefix what marshal (s, err e) = (s, failed (prefix <> text e))
  printed text prefix what marshal (s, ok value) = (s, marshalled what (marshal value))

abbrev pub invalid_ttl : Formats → Float64 → String
invalid_ttl fmt f = "invalid ttl: " <> fmt.float_text f <> " (must be 0-2147483647 seconds)"

module _ {S F R : Type 0} (mcp : Mcp R) (json : Json) (fmt : Formats) (text : F → String)
    (sched : Scheduler S F) where
  unfoldable pub handle_schedule_agent_job : Handler S R
  handle_schedule_agent_job s req = requiring mcp s (req.require_string "job_id") (λ job_id.
      requiring mcp s (req.require_string "tenant_id") (λ tenant_id.
        requiring mcp s (req.require_string "image") (λ image.
          requiring mcp s (req.require_string "trigger_source") (λ trigger_source.
            let ttl_float = req.get_float "ttl" (finite false 0 0) in
            if is_below_zero ttl_float
            then (s, failed mcp (invalid_ttl fmt ttl_float))
            else if is_above 2147483647 ttl_float
            then (s, failed mcp (invalid_ttl fmt ttl_float))
            else confirmed mcp text "schedule_agent_job failed: "
                ("Job " <> fmt.quoted job_id <> " scheduled successfully.")
                (schedule_agent_job sched s job_id tenant_id image trigger_source
                  (int32_of fmt.unrepresentable ttl_float))))))

  unfoldable pub handle_get_job_status : Handler S R
  handle_get_job_status s req = requiring mcp s (req.require_string "job_id") (λ job_id.
      printed mcp (failure_text text) "get_job_status failed: " "marshal status: "
        json.marshal_status (get_job_status sched s job_id))

  unfoldable pub handle_cancel_job : Handler S R
  handle_cancel_job s req = requiring mcp s (req.require_string "job_id") (λ job_id.
      confirmed mcp text "cancel_job failed: "
        ("Job " <> fmt.quoted job_id <> " cancelled successfully.") (cancel_job sched s job_id))

  unfoldable pub handle_list_active_agents : Handler S R
  handle_list_active_agents s req = requiring mcp s (req.require_string "tenant_id") (λ tenant_id.
      printed mcp text "list_active_agents failed: " "marshal jobs: " json.marshal_jobs
        (list_active_agents sched s tenant_id))

  unfoldable pub handle_describe_tenant : Handler S R
  handle_describe_tenant s req = requiring mcp s (req.require_string "tenant_id") (λ tenant_id.
      printed mcp (failure_text text) "describe_tenant failed: " "marshal tenant info: "
        json.marshal_info (describe_tenant sched s tenant_id))

-- toolResultErrorText, on the content.
abbrev pub result_error_text : List (Option String) → String
result_error_text [] = "tool call failed"
result_error_text (some t ∷ rest) = t
result_error_text (none ∷ rest) = result_error_text rest

module _ {R : Type 0} (mcp : Mcp R) where
  -- The span of a call, by its two results.
  abbrev pub tool_span : String → ToolAnswer R → Span
  tool_span name (result, some e) = record {
    name = name;
    recorded = e ∷ [];
    status = error_status e;
  }
  tool_span name (none, none) = record { name = name; recorded = []; status = unset_status }
  tool_span name (some r, none) = record {
    name = name;
    recorded = [];
    status =
        if mcp.is_error r then error_status (result_error_text (mcp.content r)) else unset_status;
  }

  unfoldable pub wrap_tool_handler : {S : Type 0} → String → Handler S R → Handler (Traced S) R
  wrap_tool_handler name h t req =
      let (s, answer) = h t.inner req in
      (record { inner = s; spans = tool_span name answer ∷ t.spans }, answer)

module _ {S F R : Type 0} (mcp : Mcp R) (json : Json) (fmt : Formats) (text : F → String)
    (sched : Scheduler S F) where
  -- What registerTools adds to the server, in its order.
  unfoldable pub registered_tools : List (Tool × Handler (Traced S) R)
  unfolding wrap_tool_handler
  registered_tools =
      (
        schedule_agent_job_tool,
        wrap_tool_handler mcp "mcp.schedule_agent_job"
            (handle_schedule_agent_job mcp json fmt text sched),
      )
      ∷ (
        get_job_status_tool,
        wrap_tool_handler mcp "mcp.get_job_status" (handle_get_job_status mcp json fmt text sched),
      )
      ∷ (
        cancel_job_tool,
        wrap_tool_handler mcp "mcp.cancel_job" (handle_cancel_job mcp json fmt text sched),
      )
      ∷ (
        list_active_agents_tool,
        wrap_tool_handler mcp "mcp.list_active_agents"
            (handle_list_active_agents mcp json fmt text sched),
      )
      ∷ (
        describe_tenant_tool,
        wrap_tool_handler mcp "mcp.describe_tenant"
            (handle_describe_tenant mcp json fmt text sched),
      )
      ∷ []
