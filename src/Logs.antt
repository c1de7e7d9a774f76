-- ===== src/Logs.antt =====
-- src/api/log_filter.rs: a container's log as lines with podman's timestamps, and the merge of its
-- streams. A log is the list of its bytes; a time is its number of nanoseconds.
pub mod Lines
pub mod Order
pub mod Merged
pub mod Filter
pub mod Stream
use kube_shim.Prelude.{
  ℕ, Bool, true, false, Option, none, some, List, [], ◌∷◌, ◌++◌, ◌==◌, not, if◌then◌else◌,
}
use kube_shim.Prelude.Int.{ℤ, ltb_ℤ}

-- chrono: `parse_from_rfc3339` of a field that is UTF-8, in UTC, and the kubelet's format of a time.
pub record Rfc3339 : Type 0 where
  pub parse : List ℕ → Option ℤ
  pub format : ℤ → List ℕ

abbrev pub newline : ℕ
newline = b'\n'

abbrev pub space : ℕ
space = b' '

-- a byte before the first of the lines
unfoldable pub put_first : ℕ → List (List ℕ) → List (List ℕ)
put_first b [] = (b ∷ []) ∷ []
put_first b (line ∷ lines) = (b ∷ line) ∷ lines

-- `split_inclusive(|&b| b == b'\n')`
unfoldable pub split_lines : List ℕ → List (List ℕ)
unfolding put_first
split_lines [] = []
split_lines (b ∷ bytes) =
    let rest = split_lines bytes in if b == newline then (b ∷ []) ∷ rest else put_first b rest

-- what stands before the first space, and what after it
unfoldable pub split_space : List ℕ → Option (List ℕ × List ℕ)
split_space [] = none
split_space (b ∷ bytes) =
    if b == space
    then some ([], bytes)
    else elim (split_space bytes) [ none ↦ none | some (field, rest) ↦ some (b ∷ field, rest) ]

unfoldable pub ends_line : List ℕ → Bool
ends_line [] = false
ends_line (b ∷ []) = b == newline
ends_line (b ∷ c ∷ bytes) = ends_line (c ∷ bytes)

-- a newline where there is none
unfoldable pub terminated : List ℕ → List ℕ
unfolding ends_line
terminated line = if ends_line line then line else line ++ newline ∷ []

-- A line with the time by which it is sorted; no time comes before every time.
abbrev pub Keyed : Type 0
Keyed = Option ℤ × List ℕ

unfoldable pub earlier : Option ℤ → Option ℤ → Bool
earlier none none = false
earlier none (some b) = true
earlier (some a) none = false
earlier (some a) (some b) = ltb_ℤ a b

-- One round of the stable sort: after the lines that are not later.
unfoldable pub insert_by_key : Keyed → List Keyed → List Keyed
unfolding earlier
insert_by_key x [] = x ∷ []
insert_by_key x (y ∷ ys) = if earlier y.0 x.0 then y ∷ insert_by_key x ys else x ∷ y ∷ ys

-- `sort_by_key`, which is stable
unfoldable pub sort_by_key : List Keyed → List Keyed
unfolding insert_by_key
sort_by_key [] = []
sort_by_key (x ∷ xs) = insert_by_key x (sort_by_key xs)

-- the lines one after the other, each but the last terminated
unfoldable pub join_lines : List Keyed → List ℕ
unfolding terminated
join_lines [] = []
join_lines ((key, line) ∷ []) = line
join_lines ((key, line) ∷ next ∷ rest) = terminated line ++ join_lines (next ∷ rest)

-- `Option::or` the other way: a new time, or the last one
abbrev pub latest : Option ℤ → Option ℤ → Option ℤ
latest none last = last
latest (some time) last = some time

module _ (rfc3339 : Rfc3339) where
  -- the time in front of a line, and what follows it
  after_space : Option (List ℕ × List ℕ) → Option (ℤ × List ℕ)
  after_space none = none
  after_space (some (field, rest)) = elim (rfc3339.parse field) [
    | none ↦ none
    | some time ↦ some (time, rest)
  ]

  unfoldable pub split_timestamp : List ℕ → Option (ℤ × List ℕ)
  unfolding after_space split_space
  split_timestamp line = after_space (split_space line)

  unfoldable pub time_of : List ℕ → Option ℤ
  unfolding split_timestamp
  time_of line = elim (split_timestamp line) [ none ↦ none | some (time, rest) ↦ some time ]

  -- Each line has the last time that was seen up to it.
  unfoldable pub key_lines : Option ℤ → List (List ℕ) → List Keyed
  unfolding time_of
  key_lines last [] = []
  key_lines last (line ∷ lines) =
      let time = latest (time_of line) last in (time, line) ∷ key_lines time lines

  unfoldable pub keyed_lines : List (List ℕ) → List Keyed
  unfolding key_lines split_lines
  keyed_lines [] = []
  keyed_lines (stream ∷ streams) = key_lines none (split_lines stream) ++ keyed_lines streams

  unfoldable pub merged_lines : List (List ℕ) → List Keyed
  unfolding sort_by_key keyed_lines
  merged_lines streams = sort_by_key (keyed_lines streams)

  unfoldable pub merge_by_timestamp : List (List ℕ) → List ℕ
  unfolding join_lines merged_lines
  merge_by_timestamp streams = join_lines (merged_lines streams)
