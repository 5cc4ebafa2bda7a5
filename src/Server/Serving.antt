-- ===== src/Server/Serving.antt =====
-- mcp/server/server.go: what the tool schedule_agent_job does, on every branch.
use muto.Prelude.{
  ℕ, zero, suc, ◌<◌, ◌≡◌, ap, subst, sym, ◌∙◌, ◌⊎◌, inl, inr, refl, String, ◌<>◌, Bool, true, false,
  ◌||◌, Option, none, some, Result, ok, err, Result-cases, Bool-cases, arith,
}
use muto.Prelude.Int.{ℤ, pos}
use muto.Tools.{Scheduler, schedule_agent_job}
use muto.Server.Library.{
  Float64, nan, infinite, finite, is_below_zero, is_above, int32_of, Request, Mcp, Documented, Json,
  Formats,
}
use muto.Server.{ToolAnswer, failed, confirmed, handle_schedule_agent_job, invalid_ttl}

abbrev pub is_err : Result String String → Bool
is_err (ok a) = false
is_err (err e) = true

abbrev pub is_some : {F : Type 0} → Option F → Bool
is_some none = false
is_some (some e) = true

-- The argument that the handler reads as the time to live.
abbrev pub ttl_of : Request → Float64
ttl_of req = req.get_float "ttl" (finite false 0 0)

-- The tests of the handler on its request.
abbrev pub is_unusable : Request → Bool
is_unusable req =
    is_err (req.require_string "job_id")
    || is_err (req.require_string "tenant_id")
    || is_err (req.require_string "image")
    || is_err (req.require_string "trigger_source")
    || is_below_zero (ttl_of req)
    || is_above 2147483647 (ttl_of req)

-- A whole number of seconds, rounded down, that an int32 holds; NaN passes the tests too.
abbrev pub IsTtl : (Float64 → ℤ) → Float64 → ℤ → Type 0
IsTtl unrepresentable f ttl =
    ((f ≡ nan) × (ttl ≡ unrepresentable nan))
    ⊎ ((minus : Bool) × (n fraction : ℕ) × (f ≡ finite minus n fraction)
        × (n < 2147483648)
        × (ttl ≡ pos n))

int32_of-IsTtl :
    (u : Float64 → ℤ) (f : Float64)
    → is_below_zero f ≡ false
    → is_above 2147483647 f ≡ false
    → IsTtl u f (int32_of u f)
int32_of-IsTtl u nan h k = inl (refl, refl)
int32_of-IsTtl u (infinite true) h k = cc
int32_of-IsTtl u (infinite false) h k = cc
int32_of-IsTtl u (finite false n fraction) h k =
    inr (false, n, fraction, refl, ground arith, ground arith)
int32_of-IsTtl u (finite true zero fraction) h k = inr (true, 0, fraction, refl, ground arith, refl)
int32_of-IsTtl u (finite true (suc n) fraction) h k = ground arith

module _ {R : Type 0} (mcp : Mcp R) where
  -- A result with IsError, and no Go error.
  abbrev pub IsAnswer : Bool → ToolAnswer R → Type 0
  IsAnswer flag answer = (r : R) × (answer ≡ (some r, none)) × (mcp.is_error r ≡ flag)

  flag_of : ToolAnswer R → Bool
  flag_of (none, e) = false
  flag_of (some r, e) = mcp.is_error r

  -- An answer is one result only, with one flag.
  pub IsAnswer-flag :
      (flag : Bool) (answer : ToolAnswer R) (r : R)
      → IsAnswer flag answer
      → answer ≡ (some r, none)
      → mcp.is_error r ≡ flag
  unfolding flag_of
  IsAnswer-flag flag answer r (r', same, is_flag) h = ap flag_of (sym h ∙ same) ∙ is_flag

module _ {S F R : Type 0} (mcp : Mcp R) (law : Documented mcp) (json : Json) (fmt : Formats)
    (text : F → String) (sched : Scheduler S F) where
  pub failed-IsAnswer : (t : String) → IsAnswer mcp true (failed mcp t)
  failed-IsAnswer t = (mcp.new_tool_result_error t, refl, law.error_is_error t)

  pub confirmed-IsAnswer :
      (prefix message : String) (x : S × Option F)
      → ((confirmed mcp text prefix message x).0 ≡ x.0)
        × IsAnswer mcp (is_some x.1) (confirmed mcp text prefix message x).1
  confirmed-IsAnswer prefix message (s, some e) = (refl, failed-IsAnswer (prefix <> text e))
  confirmed-IsAnswer prefix message (s, none) =
      (refl, (mcp.new_tool_result_text message, refl, law.text_is_no_error message))

  abbrev pub IsServed : Request → S → S × ToolAnswer R → Type 0
  IsServed req s out =
      (id tenant image source : String) × (ttl : ℤ) × (req.require_string "job_id" ≡ ok id)
      × (req.require_string "tenant_id" ≡ ok tenant)
      × (req.require_string "image" ≡ ok image)
      × (req.require_string "trigger_source" ≡ ok source)
      × IsTtl fmt.unrepresentable (ttl_of req) ttl
      × (out.0 ≡ (schedule_agent_job sched s id tenant image source ttl).0)
      × IsAnswer mcp (is_some (schedule_agent_job sched s id tenant image source ttl).1) out.1

  abbrev pub IsCase : S → Request → Type 0
  IsCase s req =
      ((is_unusable req ≡ true)
        × ((handle_schedule_agent_job mcp json fmt text sched s req).0 ≡ s)
        × IsAnswer mcp true (handle_schedule_agent_job mcp json fmt text sched s req).1)
      ⊎ ((is_unusable req ≡ false)
          × IsServed req s (handle_schedule_agent_job mcp json fmt text sched s req))

  -- The tests of the time to live, with the four strings there.
  ttl-IsCase :
      (s : S) (req : Request) (id tenant image source : String)
      → req.require_string "job_id" ≡ ok id
      → req.require_string "tenant_id" ≡ ok tenant
      → req.require_string "image" ≡ ok image
      → req.require_string "trigger_source" ≡ ok source
      → IsCase s req
  unfolding handle_schedule_agent_job
  ttl-IsCase s req id tenant image source h₁ h₂ h₃ h₄ =
      let f = ttl_of req in
      let ttl = int32_of fmt.unrepresentable f in
      elim (Bool-cases (is_below_zero f)) [
        | inl h ↦ rw (h₁, h₂, h₃, h₄, h) (inl (refl, refl, failed-IsAnswer (invalid_ttl fmt f)))
        | inr h ↦ elim (Bool-cases (is_above 2147483647 f)) [
          | inl k ↦
              rw (h₁, h₂, h₃, h₄, h, k) (inl (refl, refl, failed-IsAnswer (invalid_ttl fmt f)))
          | inr k ↦
              let same : handle_schedule_agent_job mcp json fmt text sched s req
                  ≡ confirmed mcp text "schedule_agent_job failed: "
                      ("Job " <> fmt.quoted id <> " scheduled successfully.")
                      (schedule_agent_job sched s id tenant image source ttl) =
                rw (h₁, h₂, h₃, h₄, h, k) refl in
              let sent =
                confirmed-IsAnswer "schedule_agent_job failed: "
                  ("Job " <> fmt.quoted id <> " scheduled successfully.")
                  (schedule_agent_job sched s id tenant image source ttl) in
              inr (
                rw (h₁, h₂, h₃, h₄, h, k) refl,
                (
                  id,
                  tenant,
                  image,
                  source,
                  ttl,
                  h₁,
                  h₂,
                  h₃,
                  h₄,
                  int32_of-IsTtl fmt.unrepresentable f h k,
                  ap (λ x. x.0) same ∙ sent.0,
                  subst
                      (λ x.
                        IsAnswer mcp
                          (is_some (schedule_agent_job sched s id tenant image source ttl).1) x.1)
                      (sym same) sent.1,
                ),
              )
        ]
      ]

  -- A call of the tool schedule_agent_job ends in one of two ways. A request that lacks one of
  -- the four strings, the trigger source included, or has a ttl below 0 or above 2^31 - 1, gets
  -- an error result and leaves the scheduler alone. Any other one is one call of ScheduleAgentJob
  -- with its arguments and its ttl, and the result is an error exactly when that call returns
  -- one. A ttl that is a number is rounded down; NaN passes the tests too, and Go leaves open
  -- which int32 it becomes.
  pub handle_schedule_agent_job_cases : (s : S) (req : Request) → IsCase s req
  unfolding handle_schedule_agent_job
  handle_schedule_agent_job_cases s req = elim (Result-cases (req.require_string "job_id")) [
    | inr (e, h) ↦ rw h (inl (refl, refl, failed-IsAnswer e))
    | inl (id, h₁) ↦ elim (Result-cases (req.require_string "tenant_id")) [
      | inr (e, h) ↦ rw (h₁, h) (inl (refl, refl, failed-IsAnswer e))
      | inl (tenant, h₂) ↦ elim (Result-cases (req.require_string "image")) [
        | inr (e, h) ↦ rw (h₁, h₂, h) (inl (refl, refl, failed-IsAnswer e))
        | inl (image, h₃) ↦ elim (Result-cases (req.require_string "trigger_source")) [
          | inr (e, h) ↦ rw (h₁, h₂, h₃, h) (inl (refl, refl, failed-IsAnswer e))
          | inl (source, h₄) ↦ ttl-IsCase s req id tenant image source h₁ h₂ h₃ h₄
        ]
      ]
    ]
  ]
