-- ===== src/Examples/TenantRuns.antt =====
-- Topics of core/tenant/validator.go.
use muto.Prelude.{◌↔◌}
use muto.Tenant.Isolation.{ShareTopic, Overlaps, validate_topic_overlap}

validate_topic_overlap_example : ShareTopic "acme" "acme.eu" ↔ Overlaps "acme" "acme.eu"
validate_topic_overlap_example = validate_topic_overlap "acme" "acme.eu"
