-- ===== src/Tests/Columns.antt =====
-- Writes of users, at concrete inputs.
use servora_iam.Tests.Memory.{memory}
