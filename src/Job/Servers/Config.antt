-- ===== src/Job/Servers/Config.antt =====
-- `resolve_container_config` of src/reconcile/job.rs, where it answers with a configuration.
use kube_shim.Prelude.{◌≡◌, refl, none, some, String}
use kube_shim.Program.{Result, ok, err, World, pure, call, ◌>>=◌, on_result}
use kube_shim.Program.Yields.{Yields, yields_rules}
use kube_shim.Context.{JobContext, ContainerConfig}
use kube_shim.Job.Servers.{config_failed, resolve_container_config}

module _ {C V F : Type 0} (ctx : JobContext C V F) where
  Yields-config_failed : (id e : String) → Yields {F = F} (λ o. o ≡ none) (config_failed ctx id e)
  unfolding config_failed
  Yields-config_failed id e = search (yields_rules)

  unchanged :
      (id : String) (r : Result String ContainerConfig) (w : World C F) (config : ContainerConfig)
      → (on_result r (λ c. pure (some c)) (λ e. config_failed ctx id e) w).0 ≡ ok (some config)
      → (on_result r (λ c. pure (some c)) (λ e. config_failed ctx id e) w).1.db ≡ w.db
  unfolding on_result pure
  unchanged id (ok c) w config h = refl
  unchanged id (err e) w config h = cc ((Yields-config_failed id e).at w (some config) h)

  -- A configuration that resolves leaves the tables alone.
  pub resolve_container_config-db :
      (id namespace name : String) (spec : V) (w : World C F) (config : ContainerConfig)
      → (resolve_container_config ctx id namespace name spec w).0 ≡ ok (some config)
      → (resolve_container_config ctx id namespace name spec w).1.db ≡ w.db
  unfolding resolve_container_config ◌>>=◌ call
  resolve_container_config-db id namespace name spec w config h = unchanged id _ _ config h
