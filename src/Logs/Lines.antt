-- ===== src/Logs/Lines.antt =====
-- `split_inclusive` of src/api/log_filter.rs: lines and bytes.
use kube_shim.Prelude.{
  ℕ, zero, suc, ◌≡◌, refl, ap, ◌∙◌, List, [], ◌∷◌, ◌++◌, ◌==◌, drop, arith, if◌then◌else◌,
}
use kube_shim.Logs.{newline, put_first, split_lines}

abbrev pub concat : List (List ℕ) → List ℕ
concat [] = []
concat (line ∷ lines) = line ++ concat lines

concat-put_first : (b : ℕ) (lines : List (List ℕ)) → concat (put_first b lines) ≡ b ∷ concat lines
unfolding put_first
concat-put_first b [] = refl
concat-put_first b (line ∷ lines) = refl

-- The lines are the bytes.
pub concat-split_lines : (bytes : List ℕ) → concat (split_lines bytes) ≡ bytes
unfolding split_lines
concat-split_lines [] = refl
concat-split_lines (b ∷ bytes) =
    ground (arith, concat-put_first b (split_lines bytes), concat-split_lines bytes)

-- the bytes after the first lines
pub after_line : List ℕ → List ℕ
after_line [] = []
after_line (b ∷ bytes) = if b == newline then bytes else after_line bytes

abbrev pub after_lines : ℕ → List ℕ → List ℕ
after_lines zero bytes = bytes
after_lines (suc n) bytes = after_lines n (after_line bytes)

drop-put_first : (b : ℕ) (lines : List (List ℕ)) → drop 1 (put_first b lines) ≡ drop 1 lines
unfolding put_first
drop-put_first b [] = refl
drop-put_first b (line ∷ lines) = refl

drop-one : (bytes : List ℕ) → drop 1 (split_lines bytes) ≡ split_lines (after_line bytes)
unfolding split_lines after_line
drop-one [] = refl
drop-one (b ∷ bytes) = ground (arith, drop-put_first b (split_lines bytes), drop-one bytes)

drop-suc : (n : ℕ) (lines : List (List ℕ)) → drop (suc n) lines ≡ drop n (drop 1 lines)
drop-suc zero [] = refl
drop-suc (suc n) [] = refl
drop-suc n (line ∷ lines) = refl

-- Lines that are left out at the front are bytes that are left out there.
pub drop-split_lines :
    (n : ℕ) (bytes : List ℕ) → drop n (split_lines bytes) ≡ split_lines (after_lines n bytes)
drop-split_lines zero bytes = refl
drop-split_lines (suc n) bytes =
    drop-suc n (split_lines bytes)
    ∙ ap (drop n) (drop-one bytes)
    ∙ drop-split_lines n (after_line bytes)
