-- ===== src/Orphans.antt =====
-- src/reconcile/orphan_scan.rs: the volumes and worker VMs that the provider lists under this
-- instance's prefix, and that no row names, are deleted.
pub mod Spared
use kube_shim.Prelude.{
  ℕ, suc, ◌+◌, Bool, true, false, Option, none, some, String, List, [], ◌∷◌, any, not, str_eq,
  if◌then◌else◌,
}
use Prim.Native.Char.{code}
use kube_shim.Prelude.{◌==◌, ◌&&◌}
use kube_shim.Db.{JobRow, VolumeRow, Db}
use kube_shim.Program.{M, pure, fail, call, query, ◌>>=◌, ◌>>◌, on_result}
use kube_shim.Provider.{error_text, Volume, Server, is_started, is_stopped}
use kube_shim.Naming.{volume_prefix, worker_prefix}
use kube_shim.Context.{JobContext}

-- `str::starts_with`
unfoldable pub starts_with : String → String → Bool
starts_with String.[] s = true
starts_with (String.◌∷◌ c prefix) String.[] = false
starts_with (String.◌∷◌ c prefix) (String.◌∷◌ d s) = (code c == code d) && starts_with prefix s

-- a column, without its NULLs
unfoldable pub volume_ids : List VolumeRow → List String
volume_ids [] = []
volume_ids (v ∷ vs) = elim v.provider_volume_id [
  | none ↦ volume_ids vs
  | some id ↦ id ∷ volume_ids vs
]

unfoldable pub worker_ids : {F : Type 0} → List (JobRow F) → List String
worker_ids [] = []
worker_ids (r ∷ rs) = elim r.worker_vm_id [ none ↦ worker_ids rs | some id ↦ id ∷ worker_ids rs ]

abbrev pub tracked_volumes : {F : Type 0} → Db F → List String
tracked_volumes db = volume_ids db.job_volumes

abbrev pub tracked_servers : {F : Type 0} → Db F → List String
tracked_servers db = worker_ids db.jobs

abbrev pub contains : List String → String → Bool
contains tracked id = any (λ t. str_eq t id) tracked

module _ {C V F : Type 0} (ctx : JobContext C V F) where
  open ctx use {provider, system, dry_run, resource_prefix, zone}

  -- one round of the loop over the volumes: how many have been deleted after it
  clean_volume : List String → ℕ → Volume → M C F ℕ
  unfolding starts_with
  clean_volume tracked cleaned volume =
      if not (starts_with (volume_prefix resource_prefix) volume.title)
      then pure cleaned
      else if contains tracked volume.id
      then pure cleaned
      else do
        deleted ← call (provider.delete_volume volume.id)
        on_result deleted (λ _. pure (suc cleaned)) (λ _. pure cleaned)

  clean_volumes : List String → ℕ → List Volume → M C F ℕ
  unfolding clean_volume
  clean_volumes tracked cleaned [] = pure cleaned
  clean_volumes tracked cleaned (volume ∷ rest) = do
    n ← clean_volume tracked cleaned volume
    clean_volumes tracked n rest

  unfoldable pub scan_and_clean_volumes : M C F ℕ
  unfolding clean_volumes
  scan_and_clean_volumes = do
    listed ← call (provider.list_volumes zone)
    on_result listed
        (λ remote_volumes. do
          tracked ← query system tracked_volumes
          clean_volumes tracked 0 remote_volumes)
        (λ e. fail (error_text e))

  -- A server that has not stopped is stopped, and left for a later scan.
  stop_orphan : ℕ → Server → M C F ℕ
  stop_orphan cleaned server =
      if is_started server
      then (do call (provider.stop_server server.id); pure cleaned)
      else pure cleaned

  clean_server : List String → ℕ → Server → M C F ℕ
  unfolding stop_orphan starts_with
  clean_server tracked cleaned server =
      if not (starts_with (worker_prefix resource_prefix) server.title)
      then pure cleaned
      else if contains tracked server.id
      then pure cleaned
      else if not (is_stopped server)
      then stop_orphan cleaned server
      else do
        deleted ← call (provider.delete_server server.id)
        on_result deleted (λ _. pure (suc cleaned)) (λ _. pure cleaned)

  clean_servers : List String → ℕ → List Server → M C F ℕ
  unfolding clean_server
  clean_servers tracked cleaned [] = pure cleaned
  clean_servers tracked cleaned (server ∷ rest) = do
    n ← clean_server tracked cleaned server
    clean_servers tracked n rest

  unfoldable pub scan_and_clean_servers : M C F ℕ
  unfolding clean_servers
  scan_and_clean_servers = do
    listed ← call (provider.list_servers zone)
    on_result listed
        (λ remote_servers. do
          tracked ← query system tracked_servers
          clean_servers tracked 0 remote_servers)
        (λ e. fail (error_text e))

  unfoldable pub scan_and_clean : M C F ℕ
  scan_and_clean = if dry_run then pure 0 else do
    volumes_cleaned ← scan_and_clean_volumes
    servers_cleaned ← scan_and_clean_servers
    pure (volumes_cleaned + servers_cleaned)
