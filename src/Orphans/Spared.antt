-- ===== src/Orphans/Spared.antt =====
-- src/reconcile/orphan_scan.rs: what the scan leaves alone.
use kube_shim.Prelude.{ℕ, ◌≡◌, false, String, List, [], ◌∷◌}
use mathlib.Core.Path.{subst}
use kube_shim.Db.{Db}
use kube_shim.Program.{World, M, Call, fail, call, query, ◌>>=◌}
use kube_shim.Program.Keeps.{
  Keeps, CallKeeps, keeps_rules, Keeps-bind, CloudKeeps-query, Keeps-query,
}
use kube_shim.Program.Yields.{bind_at, query_value}
use kube_shim.Provider.{Volume, Server}
use kube_shim.Context.{JobContext}
use kube_shim.Orphans.{
  tracked_volumes, tracked_servers, contains, clean_volume, clean_volumes, scan_and_clean_volumes,
  stop_orphan, clean_server, clean_servers, scan_and_clean_servers, scan_and_clean,
}

-- The tables are `db`, and `P` holds of the outside.
pub record Spares {C F : Type 0} (db : Db F) (P : C → Type 0) (w : World C F) : Type 0 where
  pub same : w.db ≡ db
  pub holds : P w.cloud

module _ {C F A : Type 0} {db : Db F} {P : C → Type 0} where
  Spares-call : (f : Call C A) → CallKeeps P f → Keeps (Spares db P) (call f)
  unfolding call
  Spares-call f k = record { at = λ w h. record { same = h.same; holds = k.at w.cloud h.holds } }

  Spares-fail : (e : String) → Keeps (Spares db P) (fail {A = A} e)
  unfolding fail
  Spares-fail e = record { at = λ w h. h }

-- What the scan may do: list, ask the tables, and stop or delete what no row names.
pub record Touches {C V F : Type 0} (ctx : JobContext C V F) (db : Db F) (P : C → Type 0)
    : Type 0 where
  pub list_volumes : CallKeeps P (ctx.provider.list_volumes ctx.zone)
  pub list_servers : CallKeeps P (ctx.provider.list_servers ctx.zone)
  pub fault : CallKeeps P ctx.system.fault
  pub delete_volume :
      (id : String)
      → contains (tracked_volumes db) id ≡ false
      → CallKeeps P (ctx.provider.delete_volume id)
  pub stop_server :
      (id : String)
      → contains (tracked_servers db) id ≡ false
      → CallKeeps P (ctx.provider.stop_server id)
  pub delete_server :
      (id : String)
      → contains (tracked_servers db) id ≡ false
      → CallKeeps P (ctx.provider.delete_server id)

module _ {C V F : Type 0} (ctx : JobContext C V F) {db : Db F} {P : C → Type 0}
    (touches : Touches ctx db P) where
  Spares-query :
      {A B : Type 0} (f : Db F → A) (rest : A → M C F B)
      → Keeps (Spares db P) (rest (f db))
      → Keeps (Spares db P) (query ctx.system f >>= rest)
  Spares-query f rest k = record {
    at = λ w h.
        bind_at {P = Spares db P} (query ctx.system f) rest w
          (record {
            same =
                ((Keeps-query {Q = λ d. d ≡ db} ctx.system f).at w
                  (record { holds = h.same })).holds;
            holds =
                ((CloudKeeps-query ctx.system f touches.fault).at w
                  (record { holds = h.holds })).holds;
          })
          (λ a e.
            subst (λ x. Keeps (Spares db P) (rest x)) (cc (query_value ctx.system f w a e, h.same))
              k);
  }

  Spares-clean_volume :
      (n : ℕ) (v : Volume) → Keeps (Spares db P) (clean_volume ctx (tracked_volumes db) n v)
  unfolding clean_volume
  Spares-clean_volume n v = search (keeps_rules, Spares-call, touches.delete_volume)

  Spares-clean_volumes :
      (n : ℕ) (vs : List Volume) → Keeps (Spares db P) (clean_volumes ctx (tracked_volumes db) n vs)
  unfolding clean_volumes
  Spares-clean_volumes n [] = search keeps_rules
  Spares-clean_volumes n (v ∷ vs) =
      Keeps-bind _ _ (Spares-clean_volume n v) (λ m. Spares-clean_volumes m vs)

  Spares-scan_and_clean_volumes : Keeps (Spares db P) (scan_and_clean_volumes ctx)
  unfolding scan_and_clean_volumes
  Spares-scan_and_clean_volumes = search (
    keeps_rules, Spares-call, Spares-fail, Spares-query, touches.list_volumes, Spares-clean_volumes,
  )

  Spares-clean_server :
      (n : ℕ) (s : Server) → Keeps (Spares db P) (clean_server ctx (tracked_servers db) n s)
  unfolding clean_server stop_orphan
  Spares-clean_server n s =
      search (keeps_rules, Spares-call, touches.stop_server, touches.delete_server) depth 8

  Spares-clean_servers :
      (n : ℕ) (ss : List Server) → Keeps (Spares db P) (clean_servers ctx (tracked_servers db) n ss)
  unfolding clean_servers
  Spares-clean_servers n [] = search keeps_rules
  Spares-clean_servers n (s ∷ ss) =
      Keeps-bind _ _ (Spares-clean_server n s) (λ m. Spares-clean_servers m ss)

  Spares-scan_and_clean_servers : Keeps (Spares db P) (scan_and_clean_servers ctx)
  unfolding scan_and_clean_servers
  Spares-scan_and_clean_servers = search (
    keeps_rules, Spares-call, Spares-fail, Spares-query, touches.list_servers, Spares-clean_servers,
  )

  Spares-scan_and_clean : Keeps (Spares db P) (scan_and_clean ctx)
  unfolding scan_and_clean
  Spares-scan_and_clean =
      search (keeps_rules, Spares-scan_and_clean_volumes, Spares-scan_and_clean_servers)

  -- The orphan scan changes no table, and stops or deletes no volume and no server that a row names:
  -- whatever holds outside and is kept by the lists, the database, and the stops and deletions of
  -- volumes and servers that no row names, holds after the scan, however it ends.
  pub scan_and_clean-spares :
      (w : World C F)
      → w.db ≡ db
      → P w.cloud
      → ((scan_and_clean ctx w).1.db ≡ db) × P (scan_and_clean ctx w).1.cloud
  scan_and_clean-spares w same h =
      let after = Spares-scan_and_clean.at w (record { same = same; holds = h }) in
      (after.same, after.holds)
