-- ===== src/Logs/Filter/Bounds.antt =====
-- What `LogFilter::apply` of src/api/log_filter.rs writes at most, and what it writes of a log that
-- has no timestamps.
use kube_shim.Prelude.{
  ℕ, zero, suc, ◌≤◌, ◌-◌, ◌≡◌, refl, false, none, some, List, [], ◌∷◌, length, take, drop, arith,
}
use kube_shim.Logs.{Rfc3339, split_lines}
use kube_shim.Logs.Lines.{concat, concat-split_lines, drop-split_lines}
use kube_shim.Logs.Filter.{LogFilter, filter_line, filter_lines, apply}

pub length-take-le : (n : ℕ) (bytes : List ℕ) → length (take n bytes) ≤ n
length-take-le zero bytes = omega arith
length-take-le (suc n) [] = omega arith
length-take-le (suc n) (b ∷ bytes) = omega (arith, length-take-le n bytes)

module _ (rfc3339 : Rfc3339) (filter : LogFilter) where
  filter_lines_plain :
      filter.input_has_timestamps ≡ false
      → (lines : List (List ℕ)) → filter_lines rfc3339 filter lines ≡ concat lines
  unfolding filter_lines filter_line
  filter_lines_plain plain [] = refl
  filter_lines_plain plain (line ∷ lines) = rw (plain, filter_lines_plain plain lines)

  -- Of a log without timestamps, and without a limit, exactly the last `n` lines are written, all of
  -- them if there are fewer, with every byte as it is; without `tail_lines` the whole log is.
  pub apply_plain :
      (input : List ℕ)
      → filter.input_has_timestamps ≡ false
      → filter.limit_bytes ≡ none
      → ((n : ℕ)
          → split_lines (apply rfc3339 filter input (some n))
            ≡ drop (length (split_lines input) - n) (split_lines input))
        × (apply rfc3339 filter input none ≡ input)
  unfolding apply
  apply_plain input plain free = (
    (λ n. rw (filter_lines_plain plain, plain, free, drop-split_lines, concat-split_lines) refl),
    rw (filter_lines_plain plain, plain, free, concat-split_lines) refl,
  )
