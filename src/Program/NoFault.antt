-- ===== src/Program/NoFault.antt =====
-- Actions while the database refuses no statement.
use kube_shim.Prelude.{◌≡◌, none}
use kube_shim.Db.{Db}
use kube_shim.Program.{ok, World, System, query, execute}

pub record NoFault {C : Type 0} (sys : System C) : Type 0 where
  pub never : (c : C) → (sys.fault c).0 ≡ none

module _ {C F : Type 0} (sys : System C) (safe : NoFault sys) where
  pub execute-NoFault :
      (f : Db F → Db F) (w : World C F)
      → execute sys f w ≡ (ok tt, record { db = f w.db; cloud = (sys.fault w.cloud).1 })
  unfolding execute
  execute-NoFault f w = rw (safe.never w.cloud)

module _ {C F A : Type 0} (sys : System C) (safe : NoFault sys) where
  pub query-NoFault :
      (f : Db F → A) (w : World C F)
      → query sys f w ≡ (ok (f w.db), record w { cloud = (sys.fault w.cloud).1 })
  unfolding query
  query-NoFault f w = rw (safe.never w.cloud)
