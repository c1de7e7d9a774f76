-- ===== src/Schedule/Due.antt =====
-- `CronSchedule::next_after` and `is_due` of src/reconcile/schedule.rs. Times are whole seconds: the
-- instants of a schedule are, so what is left of the second of the clock makes no difference.
pub mod Window
use kube_shim.Prelude.{
  ℕ, ◌-◌, ◌^◌, Bool, true, false, not, Option, none, some, List, [], ◌∷◌, if◌then◌else◌,
}
use kube_shim.Prelude.Int.{ℤ, pos, ◌+ℤ◌, ltb_ℤ, eqb_ℤ}
use kube_shim.Schedule.Parse.{Cron}

-- The crate `chrono`: a time less a number of seconds, where both are in its range, and whether a
-- timestamp is.
pub record Chrono : Type 0 where
  pub checked_sub_seconds : ℤ → ℤ → Option ℤ
  pub is_in_range : ℤ → Bool

-- `i64::saturating_add(1)`
abbrev pub saturating_suc : ℤ → ℤ
saturating_suc n = if eqb_ℤ n (pos (2 ^ 63 - 1)) then n else n +ℤ pos 1

earlier_of : Option ℤ → Option ℤ → Option ℤ
earlier_of none b = b
earlier_of (some a) none = some a
earlier_of (some a) (some b) = if ltb_ℤ b a then some b else some a

abbrev later_of : ℤ → ℤ → ℤ
later_of a b = if ltb_ℤ a b then b else a

earliest_start : ℤ → Option ℤ → ℤ
earliest_start last none = last
earliest_start last (some earliest) = later_of last earliest

unfoldable pub window_start : Chrono → ℤ → ℤ → Option ℤ → ℤ
unfolding earliest_start
window_start chrono last now none = last
window_start chrono last now (some deadline) =
    earliest_start last (chrono.checked_sub_seconds now (saturating_suc deadline))

no_later : Option ℤ → ℤ → Bool
no_later none now = false
no_later (some next) now = not (ltb_ℤ now next)

module _ {S : Type 0} (cron : Cron S) where
  -- the first instant of any part after a time
  unfoldable pub next_after : List S → ℤ → Option ℤ
  unfolding earlier_of
  next_after [] t = none
  next_after (part ∷ parts) t = earlier_of (cron.after part t) (next_after parts t)

  unfoldable pub is_due : Chrono → List S → ℤ → ℤ → Option ℤ → Bool
  unfolding no_later window_start next_after
  is_due chrono parts last now deadline =
      no_later (next_after parts (window_start chrono last now deadline)) now
