-- ===== src/Job/Advance/Passes.antt =====
-- Any number of passes of `advance_all_until`, one after the other, while the outside goes its own
-- way between them.
use mathlib.Core.List.{Forall₂}
use mathlib.Core.Path.{subst}
use kube_shim.Prelude.{
  ◌<◌, ◌≡◌, ◌≢◌, refl, sym, ◌∙◌, ◌⊎◌, inl, inr, Bool, List, [], ◌∷◌, All, arith,
}
use kube_shim.Db.{JobRow}
use kube_shim.Db.Quiet.{SameKey, SameKey-refl, SameKey-trans}
use kube_shim.Db.Rows.{UniqueIds}
use kube_shim.Status.Order.{rank, rank-Step}
use kube_shim.Program.{World, Call}
use kube_shim.Context.{JobContext}
use kube_shim.Job.Advance.{advance_all_until}
use kube_shim.Job.Advance.Moves.{RowMove, advance_all_until-moves}

-- A history of the process: passes, and changes outside.
pub data History {C V F : Type 0} (ctx : JobContext C V F) (w : World C F)
    : World C F → Type 0 where
  here : History ctx w w
  pass :
      {u v : World C F} (is_requested : Call C Bool)
      → History ctx w u
      → v ≡ (advance_all_until ctx is_requested u).1
      → History ctx w v
  outside :
      {u v : World C F} (c : C) → History ctx w u → v ≡ record u { cloud = c } → History ctx w v

-- The same job, not moved or moved on.
pub record Later {F : Type 0} (a b : JobRow F) : Type 0 where
  pub key : SameKey a b
  pub change :
      (a.status ≡ b.status) × (a.version ≡ b.version)
      ⊎ (rank a.status < rank b.status) × (a.version < b.version)

module _ {F : Type 0} where
  Later-refl : (rs : List (JobRow F)) → Forall₂ Later rs rs
  Later-refl [] = Forall₂.nil
  Later-refl (r ∷ rs) =
      Forall₂.cons (record { key = SameKey-refl r; change = inl (refl, refl) }) (Later-refl rs)

  Later-RowMove : {a b c : JobRow F} → Later a b → RowMove b c → Later a c
  Later-RowMove {a} {b} {c} l m = record {
    key = SameKey-trans l.key m.key;
    change = elim m.change [
      | inl (p, q) ↦
          subst
            (λ s.
              (a.status ≡ s) × (a.version ≡ c.version)
              ⊎ (rank a.status < rank s) × (a.version < c.version))
            p
            (elim l.change [ inl (x, y) ↦ inl (x, y ∙ q) | inr (x, y) ↦ inr (x, omega (arith, q)) ])
      | inr (st, q) ↦ inr (after l.change (rank-Step st), omega arith)
    ];
  }
    where
      after :
          (a.status ≡ b.status) × (a.version ≡ b.version)
            ⊎ (rank a.status < rank b.status) × (a.version < b.version)
          → rank b.status < rank c.status
          → rank a.status < rank c.status
      after (inl (x, y)) h = subst (λ s. rank s < rank c.status) (sym x) h
      after (inr (x, y)) h = omega arith

  Later-moves :
      {rs bs cs : List (JobRow F)}
      → Forall₂ Later rs bs
      → Forall₂ RowMove bs cs
      → Forall₂ Later rs cs
  Later-moves Forall₂.nil Forall₂.nil = Forall₂.nil
  Later-moves (Forall₂.cons l ls) (Forall₂.cons m ms) =
      Forall₂.cons (Later-RowMove l m) (Later-moves ls ms)

  fresh-Later :
      {x y : JobRow F} {rs bs : List (JobRow F)}
      → SameKey x y
      → Forall₂ Later rs bs
      → All (λ s. s.id ≢ x.id) rs
      → All (λ s. s.id ≢ y.id) bs
  fresh-Later k Forall₂.nil h = tt
  fresh-Later k (Forall₂.cons l ls) (h, hs) =
      ((λ e. h (l.key.id ∙ e ∙ sym k.id)), fresh-Later k ls hs)

  UniqueIds-Later : {rs bs : List (JobRow F)} → Forall₂ Later rs bs → UniqueIds rs → UniqueIds bs
  UniqueIds-Later Forall₂.nil u = tt
  UniqueIds-Later (Forall₂.cons l ls) (fresh, u) =
      (fresh-Later l.key ls fresh, UniqueIds-Later ls u)

-- Through any history of passes with the outside changing in between, if the ids are unique at the
-- start, the table keeps its rows in their order, and each job either has the status and version
-- that it had, or a status of higher rank and a higher version.
pub History-Later :
    {C V F : Type 0} (ctx : JobContext C V F) {w v : World C F}
    → UniqueIds w.db.jobs
    → History ctx w v
    → Forall₂ Later w.db.jobs v.db.jobs
History-Later ctx {w} u here = Later-refl w.db.jobs
History-Later ctx u (pass {u = s} stop h e) =
    let before = History-Later ctx u h in
    rw e (Later-moves before (advance_all_until-moves ctx stop s (UniqueIds-Later before u)))
History-Later ctx u (outside c h e) = rw e (History-Later ctx u h)
