-- ===== src/Quantity.antt =====
-- Resource quantities: `StorageTier` and the storage quantities of src/volumes.rs, and the CPU
-- quantities of src/workload.rs. They compute with f64, whose operations are a parameter.
pub mod Units
use kube_shim.Prelude.{
  ℕ, ◌+◌, ◌-◌, ◌*◌, ◌/◌, Bool, true, false, Option, none, some, String, List, [], ◌∷◌, ◌<>◌, str_eq,
  trim, if◌then◌else◌,
}
use kube_shim.Program.{Result, ok, err}

-- f64: `parse`, `* `, `/`, the test `< 0.0`, whole numbers, `ceil`, `round` and `as u32`.
pub record Floats (F : Type 0) : Type 0 where
  pub parse : String → Option F
  pub is_negative : F → Bool
  pub mul : F → F → F
  pub div : F → F → F
  pub of_ℕ : ℕ → F
  pub ceil : F → F
  pub round : F → F
  pub as_u32 : F → ℕ

pub data StorageTier : Type 0 where
  standard fast : StorageTier

abbrev pub storage_class_standard : String
storage_class_standard = "kube-shim-standard"

abbrev pub storage_class_fast : String
storage_class_fast = "kube-shim-fast"

-- `StorageTier::parse`
unfoldable pub parse_tier : Option String → Result String StorageTier
parse_tier none = ok standard
parse_tier (some name) =
    if str_eq name storage_class_standard
    then ok standard
    else if str_eq name storage_class_fast
    then ok fast
    else err name

unfoldable pub upcloud_tier : StorageTier → String
upcloud_tier standard = "standard"
upcloud_tier fast = "maxiops"

unfoldable pub class_name : StorageTier → String
class_name standard = storage_class_standard
class_name fast = storage_class_fast

-- `str::strip_suffix`
unfoldable pub strip_suffix : String → String → Option String
strip_suffix suffix String.[] = if str_eq "" suffix then some "" else none
strip_suffix suffix (String.◌∷◌ c s) =
    if str_eq (String.◌∷◌ c s) suffix
    then some ""
    else elim (strip_suffix suffix s) [ none ↦ none | some rest ↦ some (String.◌∷◌ c rest) ]

-- the suffixes in the order in which they are tried, with their multipliers
abbrev pub suffixes : List (String × ℕ)
suffixes =
    ("Ki", 1024)
    ∷ ("Mi", 1024 * 1024)
    ∷ ("Gi", 1024 * 1024 * 1024)
    ∷ ("Ti", 1024 * 1024 * 1024 * 1024)
    ∷ ("K", 1000)
    ∷ ("M", 1000000)
    ∷ ("G", 1000000000)
    ∷ ("T", 1000000000000)
    ∷ []

unfoldable pub split_suffix : String → List (String × ℕ) → String × ℕ
unfolding strip_suffix
split_suffix quantity [] = (quantity, 1)
split_suffix quantity ((suffix, multiplier) ∷ rest) = elim (strip_suffix suffix quantity) [
  | none ↦ split_suffix quantity rest
  | some number ↦ (number, multiplier)
]

-- n.div_ceil(d)
abbrev pub div_ceil : ℕ → ℕ → ℕ
div_ceil n d = (n + d - 1) / d

abbrev pub unwrap_or : Option ℕ → ℕ → ℕ
unwrap_or none d = d
unwrap_or (some n) d = n

-- Requests rounded up to whole cores and whole gigabytes (src/workload.rs).
unfoldable pub whole_units_for_requests : Option ℕ → Option ℕ → ℕ × ℕ
whole_units_for_requests cpu_millicores memory_mb =
    (div_ceil (unwrap_or cpu_millicores 1000) 1000, div_ceil (unwrap_or memory_mb 1024) 1024)

module _ {F : Type 0} (floats : Floats F) where
  open floats use {parse, is_negative, mul, div, of_ℕ, ceil, round, as_u32}

  -- a number that parses and is not negative, or an error
  non_negative : String → String → Option F → Result String F
  non_negative invalid negative none = err invalid
  non_negative invalid negative (some number) =
      if is_negative number then err negative else ok number

  unfoldable pub parse_storage_quantity_bytes : String → Result String F
  unfolding non_negative split_suffix trim
  parse_storage_quantity_bytes text =
      let quantity = trim text in
      let (number_str, multiplier) = split_suffix quantity suffixes in
      elim (non_negative ("not a valid storage quantity: \"" <> quantity <> "\"")
        ("storage quantity must not be negative: \"" <> quantity <> "\"") (parse number_str)) [
          | err e ↦ err e
          | ok number ↦ ok (mul number (of_ℕ multiplier))
        ]

  -- rounded up to whole gigabytes
  unfoldable pub parse_storage_quantity_gb : String → Result String ℕ
  unfolding parse_storage_quantity_bytes
  parse_storage_quantity_gb quantity = elim (parse_storage_quantity_bytes quantity) [
    | err e ↦ err e
    | ok bytes ↦ ok (as_u32 (ceil (div bytes (of_ℕ (1024 * 1024 * 1024)))))
  ]

  -- rounded to the nearest megabyte
  unfoldable pub parse_storage_quantity_mb : String → Result String ℕ
  unfolding parse_storage_quantity_bytes
  parse_storage_quantity_mb quantity = elim (parse_storage_quantity_bytes quantity) [
    | err e ↦ err e
    | ok bytes ↦ ok (as_u32 (round (div bytes (of_ℕ (1024 * 1024)))))
  ]

  -- `debug` is the `{:?}` of a text, which quotes and escapes it.
  unfoldable pub parse_cpu_millicores : (String → String) → String → Result String ℕ
  unfolding non_negative trim
  parse_cpu_millicores debug text =
      let quantity = trim text in
      let invalid = "not a valid CPU quantity: " <> debug quantity in
      let negative = "CPU quantity must not be negative: " <> debug quantity in
      elim (strip_suffix "m" quantity) [
        | some millicores ↦ elim (non_negative invalid negative (parse millicores)) [
          | err e ↦ err e
          | ok number ↦ ok (as_u32 (round number))
        ]
        | none ↦ elim (non_negative invalid negative (parse quantity)) [
          | err e ↦ err e
          | ok cores ↦ ok (as_u32 (round (mul cores (of_ℕ 1000))))
        ]
      ]
