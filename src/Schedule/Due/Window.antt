-- ===== src/Schedule/Due/Window.antt =====
-- When `is_due` of src/reconcile/schedule.rs holds.

use mathlib.Core.Path.{subst}
use kube_shim.Prelude.{
  ◌+◌, ◌≤◌, ◌≡◌, ◌↔◌, ◌⊎◌, refl, sym, inl, inr, true, Option, none, some, List, [], ◌∷◌, arith,
  Bool-cases, Option-cases,
}
use kube_shim.Prelude.Int.{ℤ, pos_part, neg_part, ltb_ℤ, ◌<ℤ◌}
use kube_shim.Schedule.Parse.{Cron}
use kube_shim.Schedule.Due.{Chrono, earlier_of, no_later, window_start, next_after, is_due}

-- One time is not later than another.
abbrev pub IsNoLater : ℤ → ℤ → Type 0
IsNoLater a b = pos_part a + neg_part b ≤ pos_part b + neg_part a

-- The documented behaviour of the crate `cron`: the instants of a schedule, and `after`, which gives
-- the first of them that is later than a time.
pub record Instants {S : Type 0} (cron : Cron S) : Type 1 where
  pub IsInstant : S → ℤ → Type 0
  pub after-some :
      (s : S) (t next : ℤ)
      → cron.after s t ≡ some next
      → IsInstant s next × (t <ℤ next) × ((u : ℤ) → IsInstant s u → t <ℤ u → IsNoLater next u)
  pub after-none : (s : S) (t u : ℤ) → cron.after s t ≡ none → IsInstant s u → IsNoLater u t

earlier_of-either : (a b : Option ℤ) (n : ℤ) → earlier_of a b ≡ some n → (a ≡ some n) ⊎ (b ≡ some n)
unfolding earlier_of
earlier_of-either none b n h = inr h
earlier_of-either (some a) none n h = inl h
earlier_of-either (some a) (some b) n h = elim (Bool-cases (ltb_ℤ b a)) [
  | inl e ↦ inr (rw e at h)
  | inr e ↦ inl (rw e at h)
]

-- the two times, and one that is no later than either
abbrev Least : Option ℤ → ℤ → Type 0
Least o x = (n : ℤ) × (o ≡ some n) × IsNoLater n x

some_injective : (a b : ℤ) → ◌≡◌ {A = Option ℤ} (some a) (some b) → a ≡ b
some_injective a b h = cc

Least-some : (a x : ℤ) → Least (some a) x → IsNoLater a x
Least-some a x (n, e, le) = subst (λ m. IsNoLater m x) (sym (some_injective a n e)) le

earlier_of-left : (a b : Option ℤ) (x : ℤ) → Least a x → Least (earlier_of a b) x
unfolding earlier_of
earlier_of-left none b x (n, e, le) = cc
earlier_of-left (some a) none x h = h
earlier_of-left (some a) (some b) x h = elim (Bool-cases (ltb_ℤ b a)) [
  | inl l ↦ (b, rw l refl, ground (arith, Least-some a x h))
  | inr l ↦ (a, rw l refl, Least-some a x h)
]

earlier_of-right : (a b : Option ℤ) (x : ℤ) → Least b x → Least (earlier_of a b) x
unfolding earlier_of
earlier_of-right none b x h = h
earlier_of-right (some a) none x (n, e, le) = cc
earlier_of-right (some a) (some b) x h = elim (Bool-cases (ltb_ℤ b a)) [
  | inl l ↦ (b, rw l refl, Least-some b x h)
  | inr l ↦ (a, rw l refl, ground (arith, Least-some b x h))
]

module _ {S : Type 0} (cron : Cron S) (instants : Instants cron) where
  -- an instant of one of the parts
  abbrev pub Fires : List S → ℤ → Type 0
  Fires [] t = ⊥
  Fires (part ∷ parts) t = instants.IsInstant part t ⊎ Fires parts t

  next_after-some :
      (parts : List S) (t next : ℤ)
      → next_after cron parts t ≡ some next
      → Fires parts next × (t <ℤ next)
  unfolding next_after earlier_of
  next_after-some [] t next h = cc
  next_after-some (part ∷ parts) t next h =
      elim (earlier_of-either (cron.after part t) (next_after cron parts t) next h) [
        | inl e ↦ let here = instants.after-some part t next e in (inl here.0, here.1)
        | inr e ↦ let later = next_after-some parts t next e in (inr later.0, later.1)
      ]

  -- An instant later than `t` is no earlier than the next one.
  next_after-least :
      (parts : List S) (t u : ℤ)
      → Fires parts u
      → t <ℤ u
      → (next : ℤ) × (next_after cron parts t ≡ some next) × IsNoLater next u
  unfolding next_after earlier_of
  next_after-least [] t u f h = elim f [ ]
  next_after-least (part ∷ parts) t u (inl f) h = elim (Option-cases (cron.after part t)) [
    | inl e ↦ absurd (omega (arith, instants.after-none part t u e f))
    | inr (n, e) ↦
        earlier_of-left (cron.after part t) (next_after cron parts t) u
          (n, e, (instants.after-some part t n e).2 u f h)
  ]
  next_after-least (part ∷ parts) t u (inr f) h =
      earlier_of-right (cron.after part t) (next_after cron parts t) u
        (next_after-least parts t u f h)

  due-instant :
      (parts : List S) (t now : ℤ) (next : Option ℤ)
      → next_after cron parts t ≡ next
      → no_later next now ≡ true
      → (u : ℤ) × Fires parts u × (t <ℤ u) × IsNoLater u now
  unfolding no_later
  due-instant parts t now none e h = cc
  due-instant parts t now (some next) e h =
      let found = next_after-some parts t next e in (next, found.0, found.1, ground arith)

  instant-due :
      (parts : List S) (t now u : ℤ)
      → Fires parts u
      → t <ℤ u
      → IsNoLater u now
      → no_later (next_after cron parts t) now ≡ true
  unfolding no_later
  instant-due parts t now u f h le =
      let (next, e, least) = next_after-least parts t u f h in rw e (ground arith)

  -- A run is due exactly when an instant of the schedule, of any of its parts, lies after the last run
  -- and no later than now, and, with a starting deadline, after the start of its window.
  pub is_due_iff :
      (chrono : Chrono) (parts : List S) (last now : ℤ) (deadline : Option ℤ)
      → (is_due cron chrono parts last now deadline ≡ true)
        ↔ ((u : ℤ) × Fires parts u × (window_start chrono last now deadline <ℤ u) × IsNoLater u now)
  unfolding is_due no_later
  is_due_iff chrono parts last now deadline =
      let t = window_start chrono last now deadline in
      (
        (λ h. due-instant parts t now (next_after cron parts t) refl h),
        λ found. instant-due parts t now found.0 found.1 found.2 found.3,
      )
