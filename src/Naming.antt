-- ===== src/Naming.antt =====
-- src/naming.rs: the titles of volumes and worker VMs.
pub mod Titles
use kube_shim.Prelude.{String, ◌<>◌}

unfoldable pub volume_title : String → String → String → String
volume_title resource_prefix namespace name = resource_prefix <> "-vol-" <> namespace <> "-" <> name

unfoldable pub worker_title : String → String → String → String
worker_title resource_prefix namespace name =
    resource_prefix <> "-worker-" <> namespace <> "-" <> name

unfoldable pub volume_prefix : String → String
volume_prefix resource_prefix = resource_prefix <> "-vol-"

unfoldable pub worker_prefix : String → String
worker_prefix resource_prefix = resource_prefix <> "-worker-"
