-- ===== src/Web/Refusals.antt =====
-- Which requests internal/web/handlers.go and internal/web/server.go refuse, and what a refusal leaves.
use p2ptest.Base.{str_eq}
use p2ptest.Services.{Services}
