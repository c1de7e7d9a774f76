-- ===== src/Schedule/Parse.antt =====
-- The texts of schedules, src/reconcile/schedule.rs: what the crate `cron` is given for a schedule of
-- Kubernetes.
use Prim.Native.Char.{Char, code}
use kube_shim.Prelude.{
  ℕ, zero, suc, ◌+◌, ◌-◌, ◌%◌, Bool, true, false, ◌&&◌, ◌||◌, not, leb, ltb, ◌==◌, Option, none,
  some, String, List, [], ◌∷◌, ◌<>◌, str_eq, is_empty, is_whitespace, trim, parse_usize, select,
  any, position, if◌then◌else◌,
}
use kube_shim.Prelude.Int.{ℤ}
use kube_shim.Program.{Result, ok}
use kube_shim.Env.{split_at, and_then}

put_char : Char → List String → List String
put_char c [] = String.◌∷◌ c "" ∷ []
put_char c (word ∷ words) = String.◌∷◌ c word ∷ words

-- `split` at the characters of a kind
split_where : (ℕ → Bool) → String → List String
unfolding put_char
split_where p String.[] = "" ∷ []
split_where p (String.◌∷◌ c s) =
    let rest = split_where p s in if p (code c) then "" ∷ rest else put_char c rest

abbrev split_commas : String → List String
split_commas s = split_where (λ n. n == b',') s

unfoldable pub split_whitespace : String → List String
unfolding split_where
split_whitespace s = select (λ word. not (is_empty word)) (split_where is_whitespace s)

starts_with_at : String → Bool
starts_with_at String.[] = false
starts_with_at (String.◌∷◌ c s) = code c == b'@'

-- `split_once('/').unwrap_or((item, "1"))`
base_and_step : String → String × String
base_and_step item = elim (split_at b'/' item) [ none ↦ (item, "1") | some parts ↦ parts ]

is_every : String → Bool
unfolding base_and_step
is_every item =
    let (base, step) = base_and_step item in (str_eq base "*" || str_eq base "?") && str_eq step "1"

unfoldable pub is_restricted : String → Bool
unfolding is_every split_where
is_restricted field = not (any is_every (split_commas field))

abbrev day_names : List String
day_names = "SUN" ∷ "MON" ∷ "TUE" ∷ "WED" ∷ "THU" ∷ "FRI" ∷ "SAT" ∷ []

ascii_upper : ℕ → ℕ
ascii_upper n = if leb b'a' n && leb n b'z' then n - 32 else n

eq_ignore_ascii_case : String → String → Bool
unfolding ascii_upper
eq_ignore_ascii_case String.[] String.[] = true
eq_ignore_ascii_case (String.◌∷◌ c s) (String.◌∷◌ d t) =
    ascii_upper (code c) == ascii_upper (code d) && eq_ignore_ascii_case s t
eq_ignore_ascii_case _ _ = false

unfoldable pub day : String → Option ℕ
unfolding eq_ignore_ascii_case
day s = elim (parse_usize s) [
  | some n ↦ if leb n 7 then some (n % 7) else none
  | none ↦ position (λ name. eq_ignore_ascii_case name s) day_names
]

-- `days[n] = true`
unfoldable pub set_day : ℕ → List Bool → List Bool
set_day n [] = []
set_day zero (d ∷ days) = true ∷ days
set_day (suc n) (d ∷ days) = d ∷ set_day n days

-- the loop over the offsets; a week has at most seven
unfoldable pub set_days : ℕ → ℕ → ℕ → ℕ → ℕ → List Bool → List Bool
unfolding set_day
set_days zero first length step offset days = days
set_days (suc fuel) first length step offset days =
    let rest =
      set_days fuel first length step (offset + step) (set_day ((first + offset) % 7) days) in
    if leb offset length then rest else days

-- the base and the step of an item, and whether the step is written
step_of : String → Option (String × ℕ × Bool)
step_of item = elim (split_at b'/' item) [
  | none ↦ some (item, 1, false)
  | some (base, step) ↦ elim (parse_usize step) [
    | none ↦ none
    | some n ↦ if ltb 0 n then some (base, n, true) else none
  ]
]

both_days : Option ℕ → Option ℕ → Option (ℕ × ℕ)
both_days (some a) (some b) = some (a, b)
both_days _ _ = none

-- `n/step` runs to the end of the week.
one_day : Option ℕ → ℕ → Bool → Option (ℕ × ℕ)
one_day none step slash = none
one_day (some n) step slash = if ltb 1 step || slash then some (n, 6) else some (n, n)

-- the first and the last day of an item
range_of : String → ℕ → Bool → Option (ℕ × ℕ)
unfolding both_days one_day
range_of base step slash = if str_eq base "*" then some (0, 6) else elim (split_at b'-' base) [
  | some (a, b) ↦ both_days (day a) (day b)
  | none ↦ one_day (day base) step slash
]

-- An item's days are set; none where it is not recognised.
set_item : String → List Bool → Option (List Bool)
unfolding step_of range_of set_days
set_item item days = elim (step_of item) [
  | none ↦ none
  | some (base, step, slash) ↦ elim (range_of base step slash) [
    | none ↦ none
    | some (first, last) ↦ some (set_days 7 first ((last + 7 - first) % 7) step 0 days)
  ]
]

set_items : List String → List Bool → Option (List Bool)
unfolding set_item
set_items [] days = some days
set_items (item ∷ items) days = elim (set_item item days) [
  | none ↦ none
  | some next ↦ set_items items next
]

names_of : List String → List Bool → List String
names_of (name ∷ names) (d ∷ days) = if d then name ∷ names_of names days else names_of names days
names_of _ _ = []

-- `join`
join : String → List String → String
join separator [] = ""
join separator (word ∷ []) = word
join separator (word ∷ next ∷ words) = word <> (separator <> join separator (next ∷ words))

unfoldable pub day_of_week_to_names : String → String
unfolding set_items names_of join split_where
day_of_week_to_names field =
    if str_eq field "*" || str_eq field "?"
    then field
    else elim (set_items (split_commas field)
        (false ∷ false ∷ false ∷ false ∷ false ∷ false ∷ false ∷ [])) [
          | none ↦ field
          | some days ↦ join "," (names_of day_names days)
        ]

six_fields : String → List String → String
unfolding join
six_fields schedule (minute ∷ hour ∷ day_of_month ∷ month ∷ day_of_week ∷ []) =
    "0 " <> join " " (minute ∷ hour ∷ day_of_month ∷ month ∷ day_of_week_to_names day_of_week ∷ [])
six_fields schedule _ = "0 " <> schedule

unfoldable pub to_six_field : String → String
unfolding six_fields starts_with_at
to_six_field schedule =
    let trimmed = trim schedule in
    if starts_with_at trimmed then trimmed else six_fields trimmed (split_whitespace trimmed)

-- The parts of a schedule: two where both days are restricted.
parts_of : String → List String → List String
unfolding starts_with_at
parts_of schedule (minute ∷ hour ∷ day_of_month ∷ month ∷ day_of_week ∷ []) =
    if not (starts_with_at schedule) && is_restricted day_of_month && is_restricted day_of_week
    then (minute <> " " <> hour <> " " <> day_of_month <> " " <> month <> " *")
      ∷ (minute <> " " <> hour <> " * " <> month <> " " <> day_of_week)
      ∷ []
    else schedule ∷ []
parts_of schedule _ = schedule ∷ []

-- The crate `cron`: its parser, and the first instant after a time, in seconds.
pub record Cron (S : Type 0) : Type 0 where
  pub from_str : String → Result String S
  pub after : S → ℤ → Option ℤ

module _ {S : Type 0} (cron : Cron S) where
  parse_parts : List String → Result String (List S)
  parse_parts [] = ok []
  parse_parts (part ∷ parts) =
      and_then (cron.from_str (to_six_field part))
        (λ first. and_then (parse_parts parts) (λ rest. ok (first ∷ rest)))

  unfoldable pub parse_schedule : String → Result String (List S)
  unfolding parse_parts parts_of
  parse_schedule schedule =
      let trimmed = trim schedule in parse_parts (parts_of trimmed (split_whitespace trimmed))
