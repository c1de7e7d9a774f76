-- ===== src/Program/At.antt =====
-- What an action keeps when it starts from one given world.
use kube_shim.Prelude.{◌≡◌, Bool, true, false, Option, none, some, if◌then◌else◌}
use kube_shim.Program.{World, Call, M, call, ◌>>=◌, let_some}
use kube_shim.Program.Keeps.{Keeps, OnCloud, CallKeeps}

pub record KeptAt {C F A : Type 0} (P : C → Type 0) (w : World C F) (m : M C F A) : Type 0 where
  pub at : P w.cloud → P (m w).1.cloud

module _ {C F A : Type 0} {P : C → Type 0} {w : World C F} where
  pub KeptAt-Keeps : {m : M C F A} → Keeps (OnCloud P) m → KeptAt P w m
  KeptAt-Keeps k = record { at = λ h. (k.at w (record { holds = h })).holds }

  pub KeptAt-if :
      (b : Bool) {m n : M C F A} → KeptAt P w m → KeptAt P w n → KeptAt P w (if b then m else n)
  KeptAt-if true k l = k
  KeptAt-if false k l = l

module _ {C F A B : Type 0} {P : C → Type 0} {w : World C F} where
  pub KeptAt-let_some :
      (o : Option A) {m : M C F B} {f : A → M C F B}
      → KeptAt P w m
      → ((a : A) → KeptAt P w (f a))
      → KeptAt P w (let_some o m f)
  unfolding let_some
  KeptAt-let_some none k l = k
  KeptAt-let_some (some a) k l = l a

  -- The rest of the action has to be known only for the answer that the call gives in this world.
  pub KeptAt-call :
      (f : Call C A) (rest : A → M C F B)
      → CallKeeps P f
      → Keeps (OnCloud P) (rest (f w.cloud).0)
      → KeptAt P w (call f >>= rest)
  unfolding call ◌>>=◌
  KeptAt-call f rest kf k = record {
    at =
        λ h. (k.at (record w { cloud = (f w.cloud).1 }) (record { holds = kf.at w.cloud h })).holds;
  }

module _ {C F A B : Type 0} {R : World C F → Type 0} where
  pub Keeps-found :
      {o : Option A} {x : A} (m : M C F B) (f : A → M C F B)
      → o ≡ some x
      → Keeps R (f x)
      → Keeps R (let_some o m f)
  unfolding let_some
  Keeps-found m f e k = rw e k
