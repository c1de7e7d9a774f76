-- ===== src/Program/WhenTrue.antt =====
-- What holds after an action that answers `true`.
use kube_shim.Prelude.{◌≡◌, refl, Bool, true, false, Option, none, some, String, if◌then◌else◌}
use kube_shim.Program.{
  Result, ok, err, World, M, Call, pure, call, continue, ◌>>=◌, let_some, on_result,
}
use kube_shim.Program.Keeps.{Keeps, OnCloud}
use kube_shim.Program.Yields.{Yields}

pub record WhenTrue {C F : Type 0} (R : World C F → Type 0) (m : M C F Bool) : Type 0 where
  pub at : (w : World C F) → (m w).0 ≡ ok true → R (m w).1

module _ {C F : Type 0} {R : World C F → Type 0} where
  pub WhenTrue-false : WhenTrue R (pure false)
  unfolding pure
  WhenTrue-false = record { at = λ w h. cc }

  pub WhenTrue-if :
      (b : Bool) (m n : M C F Bool)
      → (b ≡ true → WhenTrue R m)
      → (b ≡ false → WhenTrue R n)
      → WhenTrue R (if b then m else n)
  WhenTrue-if true m n wm wn = wm refl
  WhenTrue-if false m n wm wn = wn refl

  pub WhenTrue-else :
      (b : Bool) → b ≡ false → (m n : M C F Bool) → WhenTrue R n → WhenTrue R (if b then m else n)
  WhenTrue-else b e m n wn = rw e wn

  -- an action that answers nothing but `false`
  pub WhenTrue-never : (m : M C F Bool) → Yields (λ b. b ≡ false) m → WhenTrue R m
  WhenTrue-never m y = record { at = λ w h. cc (y.at w true h) }

module _ {C F A : Type 0} {R : World C F → Type 0} where
  WhenTrue-continue :
      (r : Result String A) (f : A → M C F Bool)
      → ((a : A) → WhenTrue R (f a))
      → WhenTrue R (continue r f)
  WhenTrue-continue (ok a) f k = k a
  WhenTrue-continue (err e) f k = record { at = λ w h. cc }

  pub WhenTrue-bind :
      (m : M C F A) (f : A → M C F Bool) → ((a : A) → WhenTrue R (f a)) → WhenTrue R (m >>= f)
  unfolding ◌>>=◌
  WhenTrue-bind m f k = record { at = λ w h. (WhenTrue-continue (m w).0 f k).at (m w).1 h }

  pub WhenTrue-let_some :
      (o : Option A) (m : M C F Bool) (f : A → M C F Bool)
      → WhenTrue R m
      → ((a : A) → WhenTrue R (f a))
      → WhenTrue R (let_some o m f)
  unfolding let_some
  WhenTrue-let_some none m f wm wf = wm
  WhenTrue-let_some (some a) m f wm wf = wf a

  pub WhenTrue-found :
      {x : A} (o : Option A) (m : M C F Bool) (f : A → M C F Bool)
      → o ≡ some x
      → WhenTrue R (f x)
      → WhenTrue R (let_some o m f)
  unfolding let_some
  WhenTrue-found o m f e wf = rw e wf

module _ {C F A : Type 0} (R : World C F → Type 0) where
  continue-eq-ok :
      (r : Result String A) (f : A → M C F Bool) (w : World C F)
      → (continue r f w).0 ≡ ok true
      → ((a : A) → r ≡ ok a → (f a w).0 ≡ ok true → R (f a w).1)
      → R (continue r f w).1
  continue-eq-ok (ok a) f w h k = k a refl h
  continue-eq-ok (err e) f w h k = cc

  -- the same from one world, where the rest may depend on what the first action answers there
  pub when_true_at :
      (m : M C F A) (f : A → M C F Bool) (w : World C F)
      → ((m >>= f) w).0 ≡ ok true
      → ((a : A) → (m w).0 ≡ ok a → (f a (m w).1).0 ≡ ok true → R (f a (m w).1).1)
      → R ((m >>= f) w).1
  unfolding ◌>>=◌
  when_true_at m f w h k = continue-eq-ok (m w).0 f (m w).1 h k

module _ {C F E A : Type 0} {R : World C F → Type 0} where
  pub WhenTrue-on_result :
      (r : Result E A) (good : A → M C F Bool) (bad : E → M C F Bool)
      → ((a : A) → WhenTrue R (good a))
      → ((e : E) → WhenTrue R (bad e))
      → WhenTrue R (on_result r good bad)
  unfolding on_result
  WhenTrue-on_result (ok a) good bad wg wb = wg a
  WhenTrue-on_result (err e) good bad wg wb = wb e

-- `Q` holds after a call that succeeds.
pub record Achieves {C E A : Type 0} (Q : C → Type 0) (f : Call C (Result E A)) : Type 0 where
  pub at : (c : C) (a : A) → (f c).0 ≡ ok a → Q (f c).1

module _ {C F E A : Type 0} {Q : C → Type 0} where
  result_at :
      (r : Result E A) (good : A → M C F Bool) (bad : E → M C F Bool) (w : World C F)
      → ((a : A) → r ≡ ok a → Q w.cloud)
      → ((a : A) → Keeps (OnCloud {F = F} Q) (good a))
      → ((e : E) → WhenTrue (OnCloud Q) (bad e))
      → (on_result r good bad w).0 ≡ ok true
      → OnCloud {F = F} Q (on_result r good bad w).1
  unfolding on_result
  result_at (ok a) good bad w q kg wb h = (kg a).at w (record { holds = q a refl })
  result_at (err e) good bad w q kg wb h = (wb e).at w h

  -- a call that has to succeed for the answer to be `true`
  pub WhenTrue-call :
      (f : Call C (Result E A)) (good : A → M C F Bool) (bad : E → M C F Bool)
      → Achieves Q f
      → ((a : A) → Keeps (OnCloud {F = F} Q) (good a))
      → ((e : E) → WhenTrue (OnCloud {F = F} Q) (bad e))
      → WhenTrue (OnCloud {F = F} Q) (call f >>= λ r. on_result r good bad)
  unfolding ◌>>=◌ call
  WhenTrue-call f good bad q kg wb = record {
    at = λ w h.
        result_at (f w.cloud).0 good bad (record w { cloud = (f w.cloud).1 }) (q.at w.cloud) kg wb
          h;
  }

pub ruleset when_true_rules = (
  WhenTrue-false, WhenTrue-if, WhenTrue-bind, WhenTrue-let_some, WhenTrue-on_result, WhenTrue-never,
)
