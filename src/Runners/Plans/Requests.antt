-- ===== src/Runners/Plans/Requests.antt =====
-- RunTask of every runner.
use stack_deploy.Map.{Map}
