-- ===== src/Logs/Filter.antt =====
-- `LogFilter` of src/api/log_filter.rs: one line, a complete log, and the logs of a finished job.
pub mod Bounds
use kube_shim.Prelude.{
  ℕ, zero, suc, ◌+◌, ◌-◌, Bool, true, false, Option, none, some, List, [], ◌∷◌, ◌++◌, length, take,
  drop, if◌then◌else◌,
}
use kube_shim.Prelude.Int.{ℤ, ltb_ℤ}
use kube_shim.Logs.{Rfc3339, space, split_lines, split_timestamp, merge_by_timestamp}

pub record LogFilter : Type 0 where
  pub input_has_timestamps : Bool
  pub timestamps : Bool
  pub since : Option ℤ
  pub limit_bytes : Option ℕ

-- `Option::is_some_and` of a time before `since`
abbrev before : ℤ → Option ℤ → Bool
before time none = false
before time (some since) = ltb_ℤ time since

-- the first of the lines that are kept
abbrev pub tail_start : ℕ → Option ℕ → ℕ
tail_start count none = 0
tail_start count (some n) = count - n

-- `Vec::truncate`
abbrev pub truncated : Option ℕ → List ℕ → List ℕ
truncated none out = out
truncated (some limit) out = take limit out

module _ (rfc3339 : Rfc3339) where
  timestamped : LogFilter → ℤ → List ℕ → List ℕ
  timestamped filter time rest =
      if before time filter.since
      then []
      else if filter.timestamps
      then rfc3339.format time ++ space ∷ rest
      else rest

  -- what the filter writes for one line
  unfoldable pub filter_line : LogFilter → List ℕ → List ℕ
  unfolding timestamped
  filter_line filter line =
      if filter.input_has_timestamps
      then elim (split_timestamp rfc3339 line) [
        | none ↦ line
        | some (time, rest) ↦ timestamped filter time rest
      ]
      else line

  unfoldable pub filter_lines : LogFilter → List (List ℕ) → List ℕ
  unfolding filter_line
  filter_lines filter [] = []
  filter_lines filter (line ∷ lines) = filter_line filter line ++ filter_lines filter lines

  -- the input, in the order of its times if it has them
  abbrev pub sorted_input : LogFilter → List ℕ → List ℕ
  sorted_input filter input =
      if filter.input_has_timestamps then merge_by_timestamp rfc3339 (input ∷ []) else input

  unfoldable pub apply : LogFilter → List ℕ → Option ℕ → List ℕ
  unfolding filter_lines
  apply filter input tail_lines =
      let lines = split_lines (sorted_input filter input) in
      truncated filter.limit_bytes
        (filter_lines filter (drop (tail_start (length lines) tail_lines) lines))

  unfoldable pub normalize_timestamps : List ℕ → List ℕ
  unfolding apply
  normalize_timestamps logs =
      apply
        (record {
          input_has_timestamps = true;
          timestamps = true;
          since = none;
          limit_bytes = none;
        })
        logs none
