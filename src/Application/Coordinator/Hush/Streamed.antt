-- ===== src/Application/Coordinator/Hush/Streamed.antt =====
-- The player at the end of a streamed response of internal/application/coordinator.go.
use xarlatan.Common.Text.{Text}
