-- ===== src/Prelude/Text.antt =====
-- What the program uses of Rust's `str`, over the native texts: joining, trimming, hexadecimal
-- digits, printing and parsing of integers. `[]` and `∷` of a text are written `nil` and `cons`.
use Prim.Native.Nat.{ℕ, zero, suc, ◌+◌, ◌-◌, ◌*◌, ◌/◌, ◌%◌, ◌^◌}
use Prim.Native.Char.{code}
use Prim.Native.String.{String}
use mathlib.Core.Bool.{Bool, true, false, ◌&&◌, ◌||◌}
use mathlib.Core.Option.{Option, none, some}
use text.Mathlib.Text.{◌==◌ as str_eq}
use kube_shim.Prelude.Tests.{ltb, leb, ◌==◌, if◌then◌else◌}
use kube_shim.Prelude.Int.{ℤ, pos, negsuc}
pub use Prim.Native.String.{◌++◌ as ◌<>◌}

unfoldable pub is_empty : String → Bool
is_empty s = str_eq s ""

-- `char::is_whitespace`: the Unicode property White_Space
unfoldable pub is_whitespace : ℕ → Bool
is_whitespace c =
    (leb 9 c && leb c 13)
    || (c == 0x20)
    || (c == 0x85)
    || (c == 0xa0)
    || (c == 0x1680)
    || (leb 0x2000 c && leb c 0x200a)
    || (c == 0x2028)
    || (c == 0x2029)
    || (c == 0x202f)
    || (c == 0x205f)
    || (c == 0x3000)

unfoldable pub trim_start : String → String
trim_start String.[] = ""
trim_start (String.◌∷◌ c s) = if is_whitespace (code c) then trim_start s else String.◌∷◌ c s

unfoldable pub trim_end : String → String
unfolding is_empty
trim_end String.[] = ""
trim_end (String.◌∷◌ c s) =
    let rest = trim_end s in
    if is_whitespace (code c) && is_empty rest then "" else String.◌∷◌ c rest

unfoldable pub trim : String → String
unfolding trim_start trim_end is_whitespace
trim s = trim_end (trim_start s)

-- `chars().all(|c| c.is_ascii_hexdigit())`
unfoldable pub all_hex : String → Bool
all_hex String.[] = true
all_hex (String.◌∷◌ c s) =
    ((leb b'0' (code c) && leb (code c) b'9')
      || (leb b'A' (code c) && leb (code c) b'F')
      || (leb b'a' (code c) && leb (code c) b'f'))
    && all_hex s

digit : ℕ → String
digit n =
    if n == 0
    then "0"
    else if n == 1
    then "1"
    else if n == 2
    then "2"
    else if n == 3
    then "3"
    else if n == 4
    then "4"
    else if n == 5
    then "5"
    else if n == 6
    then "6"
    else if n == 7
    then "7"
    else if n == 8
    then "8"
    else "9"

-- The digits of `n` before `rest`; a number has fewer digits than its successor, so the fuel of
-- `show_ℕ` is enough.
show_before : ℕ → ℕ → String → String
show_before zero n rest = rest
show_before (suc fuel) n rest =
    let here = digit (n % 10) <> rest in
    let more = show_before fuel (n / 10) here in if ltb n 10 then here else more

-- `{n}` of an unsigned integer
unfoldable pub show_ℕ : ℕ → String
unfolding show_before digit
show_ℕ n = show_before (suc n) n ""

-- `{n}` of an i64
unfoldable pub show_ℤ : ℤ → String
unfolding show_ℕ
show_ℤ (pos n) = show_ℕ n
show_ℤ (negsuc n) = "-" <> show_ℕ (suc n)

-- `{status:?}` of an `Option<u32>`
unfoldable pub show_option : Option ℕ → String
unfolding show_ℕ
show_option none = "None"
show_option (some n) = "Some(" <> show_ℕ n <> ")"

digits : ℕ → String → Option ℕ
digits acc String.[] = some acc
digits acc (String.◌∷◌ c s) =
    let more = digits (acc * 10 + (code c - b'0')) s in
    if leb b'0' (code c) && leb (code c) b'9' then more else none

-- an i64 has to fit
in_i64 : Bool → Option ℕ → Option ℤ
in_i64 minus none = none
in_i64 true (some zero) = some (pos 0)
in_i64 true (some (suc n)) = if leb (2 ^ 63) n then none else some (negsuc n)
in_i64 false (some n) = if leb (2 ^ 63) n then none else some (pos n)

-- at least one digit
unsigned : Bool → String → Option ℤ
unfolding digits in_i64
unsigned minus String.[] = none
unsigned minus (String.◌∷◌ c s) = in_i64 minus (digits 0 (String.◌∷◌ c s))

-- `parse::<i64>()`: an optional sign, then decimal digits, within the range of an i64
unfoldable pub parse_i64 : String → Option ℤ
unfolding unsigned
parse_i64 String.[] = none
parse_i64 (String.◌∷◌ c s) =
    if code c == b'-'
    then unsigned true s
    else if code c == b'+'
    then unsigned false s
    else unsigned false (String.◌∷◌ c s)

in_usize : Option ℕ → Option ℕ
in_usize none = none
in_usize (some n) = if leb (2 ^ 64) n then none else some n

some_digits : String → Option ℕ
unfolding digits in_usize
some_digits String.[] = none
some_digits (String.◌∷◌ c s) = in_usize (digits 0 (String.◌∷◌ c s))

-- `parse::<usize>()`: an optional plus, then decimal digits, within 64 bits
unfoldable pub parse_usize : String → Option ℕ
unfolding some_digits
parse_usize String.[] = none
parse_usize (String.◌∷◌ c s) =
    if code c == b'+' then some_digits s else some_digits (String.◌∷◌ c s)

-- whether a text is there, and this one: `as_deref() == Some(..)`
abbrev pub is_text : Option String → String → Bool
is_text none t = false
is_text (some s) t = str_eq s t
