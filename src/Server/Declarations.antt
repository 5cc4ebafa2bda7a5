-- ===== src/Server/Declarations.antt =====
-- mcp/server/server.go: the tools as they are declared to the clients.
use muto.Prelude.{String, Bool, true, List, [], ◌∷◌}

pub data ParamType : Type 0 where
  string number : ParamType

pub record Param : Type 0 where
  pub name : String
  pub type : ParamType
  pub required : Bool
  pub description : String

pub record Tool : Type 0 where
  pub name : String
  pub description : String
  pub params : List Param

-- mcp.WithString and mcp.WithNumber, with mcp.Required.
abbrev required_string : String → String → Param
required_string name description = record {
  name = name;
  type = string;
  required = true;
  description = description;
}

abbrev required_number : String → String → Param
required_number name description = record {
  name = name;
  type = number;
  required = true;
  description = description;
}

abbrev pub schedule_agent_job_tool : Tool
schedule_agent_job_tool = record {
  name = "schedule_agent_job";
  description = "Schedule a new agent job on the Muto scheduler.";
  params =
      required_string "job_id" "Unique identifier for the job."
      ∷ required_string "tenant_id" "Tenant that owns this job."
      ∷ required_string "image" "Container image for the agent worker."
      ∷ required_string "trigger_source" "Source that triggered this job (e.g. event topic)."
      ∷ required_number "ttl" "Time-to-live in seconds after job completion before cleanup."
      ∷ [];
}

abbrev pub get_job_status_tool : Tool
get_job_status_tool = record {
  name = "get_job_status";
  description = "Retrieve the current status of an agent job.";
  params = required_string "job_id" "Unique identifier of the job." ∷ [];
}

abbrev pub cancel_job_tool : Tool
cancel_job_tool = record {
  name = "cancel_job";
  description = "Cancel a running agent job.";
  params = required_string "job_id" "Unique identifier of the job to cancel." ∷ [];
}

abbrev pub list_active_agents_tool : Tool
list_active_agents_tool = record {
  name = "list_active_agents";
  description = "List all active agent jobs for a tenant.";
  params = required_string "tenant_id" "Tenant whose active agents should be listed." ∷ [];
}

abbrev pub describe_tenant_tool : Tool
describe_tenant_tool = record {
  name = "describe_tenant";
  description = "Describe a tenant's isolation tier, message bus type, namespace, and readiness.";
  params = required_string "tenant_id" "Tenant identifier to describe." ∷ [];
}
