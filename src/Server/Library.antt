-- ===== src/Server/Library.antt =====
-- What mcp/server takes from outside the repository: mcp-go, encoding/json, fmt, and float64.
use muto.Prelude.{
  ℕ, zero, suc, ◌≡◌, String, Bool, true, false, Option, some, List, [], ◌∷◌, Result, ltb, eqb, not,
  if◌then◌else◌,
}
use muto.Prelude.Int.{ℤ, pos, negsuc}
use muto.Agent.{Status, Job}
use muto.Tools.{TenantInfo}

-- A float64. Every finite one is a sign, a whole number and a number of units of 2^-1074, fewer than
-- 2^1074 of them.
pub data Float64 : Type 0 where
  nan : Float64
  infinite : Bool → Float64
  finite : Bool → ℕ → ℕ → Float64

-- The sign is `true` for a minus.
abbrev is_zero : ℕ → ℕ → Bool
is_zero whole fraction = if eqb whole 0 then eqb fraction 0 else false

-- `f < 0`: false for NaN and for -0.
abbrev pub is_below_zero : Float64 → Bool
is_below_zero nan = false
is_below_zero (infinite minus) = minus
is_below_zero (finite minus whole fraction) = if minus then not (is_zero whole fraction) else false

-- `f > n`: false for NaN.
abbrev pub is_above : ℕ → Float64 → Bool
is_above n nan = false
is_above n (infinite minus) = not minus
is_above n (finite minus whole fraction) =
    if minus
    then false
    else if ltb n whole
    then true
    else if eqb n whole
    then ltb 0 fraction
    else false

-- `int32(f)`: towards zero. Go leaves open what it gives for a value that an int32 cannot hold: that
-- is the first argument.
abbrev pub int32_of : (Float64 → ℤ) → Float64 → ℤ
int32_of unrepresentable (finite false whole fraction) =
    if ltb whole 2147483648 then pos whole else unrepresentable (finite false whole fraction)
int32_of unrepresentable (finite true zero fraction) = pos 0
int32_of unrepresentable (finite true (suc whole) fraction) =
    if ltb whole 2147483648
    then negsuc whole
    else unrepresentable (finite true (suc whole) fraction)
int32_of unrepresentable f = unrepresentable f

-- mcp.CallToolRequest.
pub record Request : Type 0 where
  pub require_string : String → Result String String
  pub get_float : String → Float64 → Float64

-- The constructors of mcp.CallToolResult, IsError, and Content: the text of each TextContent.
pub record Mcp (R : Type 0) : Type 0 where
  pub new_tool_result_error : String → R
  pub new_tool_result_text : String → R
  pub is_error : R → Bool
  pub content : R → List (Option String)

-- What mcp-go documents of them.
pub record Documented {R : Type 0} (mcp : Mcp R) : Type 0 where
  pub error_is_error : (t : String) → mcp.is_error (mcp.new_tool_result_error t) ≡ true
  pub error_content : (t : String) → mcp.content (mcp.new_tool_result_error t) ≡ some t ∷ []
  pub text_is_no_error : (t : String) → mcp.is_error (mcp.new_tool_result_text t) ≡ false

-- json.Marshal, at the types it is called with.
pub record Json : Type 0 where
  pub marshal_status : Status → Result String String
  pub marshal_jobs : List Job → Result String String
  pub marshal_info : TenantInfo → Result String String

-- `%q`, `%v` of a float64, and the conversion of a float64 that no int32 can hold.
pub record Formats : Type 0 where
  pub quoted : String → String
  pub float_text : Float64 → String
  pub unrepresentable : Float64 → ℤ
