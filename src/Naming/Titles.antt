-- ===== src/Naming/Titles.antt =====
-- How far the titles of src/naming.rs tell jobs apart.
use text.Mathlib.TextLemmas.{append_cancel_left}
use kube_shim.Prelude.{◌≡◌, ◌↔◌, String, ◌<>◌, ap}
use kube_shim.Naming.{volume_title, worker_title}

abbrev pub joined : String → String → String
joined namespace name = namespace <> "-" <> name

-- The titles of two volumes are the same exactly when the namespaces and names, each pair joined by
-- a hyphen, are the same, and so are the titles of two worker VMs: apart from a hyphen that moves
-- between namespace and name, the titles tell the jobs of one resource prefix apart.
pub titles-collide :
    (prefix namespace name other_namespace other : String)
    → ((volume_title prefix namespace name ≡ volume_title prefix other_namespace other)
        ↔ (joined namespace name ≡ joined other_namespace other))
      × ((worker_title prefix namespace name ≡ worker_title prefix other_namespace other)
          ↔ (joined namespace name ≡ joined other_namespace other))
unfolding volume_title worker_title
titles-collide prefix namespace name other_namespace other = (
  (
    (λ e. append_cancel_left "-vol-" _ _ (append_cancel_left prefix _ _ e)),
    λ e. ap (λ t. prefix <> "-vol-" <> t) e,
  ),
  (
    (λ e. append_cancel_left "-worker-" _ _ (append_cancel_left prefix _ _ e)),
    λ e. ap (λ t. prefix <> "-worker-" <> t) e,
  ),
)
