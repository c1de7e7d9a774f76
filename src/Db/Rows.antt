-- ===== src/Db/Rows.antt =====
-- The rows of `jobs` before and after an update, side by side.
use mathlib.Core.List.{Forall₂}
use kube_shim.Prelude.{
  Bool, List, [], ◌∷◌, String, ◌≡◌, ◌≢◌, refl, sym, All, select, find, map_option, str_eq,
  str_eq_iff, if◌then◌else◌, Bool-cases, inl, inr,
}
use kube_shim.Db.{JobRow, Db, find_job, update_where, update_job}

-- `id TEXT PRIMARY KEY`
abbrev pub UniqueIds : {F : Type 0} → List (JobRow F) → Type 0
UniqueIds [] = Unit
UniqueIds (r ∷ rs) = All (λ s. s.id ≢ r.id) rs × UniqueIds rs

-- Rows of one id have one status.
abbrev pub Agrees : {F : Type 0} → JobRow F → JobRow F → Type 0
Agrees r a = a.id ≡ r.id → a.status ≡ r.status

pub All-mono {ℓ κ μ} :
    {A : Type ℓ} {P : A → Type κ} {Q : A → Type μ} (xs : List A)
    → ((a : A) → P a → Q a)
    → All P xs
    → All Q xs
All-mono [] f h = tt
All-mono (x ∷ xs) f (h, hs) = (f x h, All-mono xs f hs)

pub All-select {ℓ κ} :
    {A : Type ℓ} (P : A → Type κ) (p : A → Bool) (xs : List A) → All P xs → All P (select p xs)
All-select P p [] h = tt
All-select P p (x ∷ xs) (h, hs) = elim (Bool-cases (p x)) [
  | inl e ↦ rw e (h, All-select P p xs hs)
  | inr e ↦ rw e (All-select P p xs hs)
]

module _ {F : Type 0} where
  Agrees-cons :
      (x : JobRow F) (rs bs : List (JobRow F))
      → All (λ s. s.id ≢ x.id) rs
      → All (λ r. All (Agrees r) bs) rs
      → All (λ r. All (Agrees r) (x ∷ bs)) rs
  Agrees-cons x [] bs ne h = tt
  Agrees-cons x (r ∷ rs) bs (ne, nes) (h, hs) =
      ((λ e. absurd (ne (sym e)), h), Agrees-cons x rs bs nes hs)

  pub UniqueIds-Agrees : (rs : List (JobRow F)) → UniqueIds rs → All (λ r. All (Agrees r) rs) rs
  UniqueIds-Agrees [] u = tt
  UniqueIds-Agrees (x ∷ xs) (fresh, u) = (
    (λ _. refl, All-mono xs (λ a ne e. absurd (ne e)) fresh),
    Agrees-cons x xs xs fresh (UniqueIds-Agrees xs u),
  )

  if_row :
      (R : JobRow F → Type 0) (id : String) (f : JobRow F → JobRow F) (b : JobRow F)
      → (b.id ≡ id → R (f b))
      → R b
      → R (if str_eq b.id id then f b else b)
  if_row R id f b changed same = elim (Bool-cases (str_eq b.id id)) [
    | inl e ↦ rw e (changed ((str_eq_iff b.id id).0 e))
    | inr e ↦ rw e same
  ]

  -- A property of every row that the update keeps on the rows that it writes.
  pub All-update_where :
      {P Q : JobRow F → Type 0} (id : String) (f : JobRow F → JobRow F) (rs : List (JobRow F))
      → ((r : JobRow F) → P r → Q r)
      → ((r : JobRow F) → P r → r.id ≡ id → Q (f r))
      → All P rs
      → All Q (update_where id f rs)
  unfolding update_where
  All-update_where id f [] same changed h = tt
  All-update_where {Q} id f (r ∷ rs) same changed (h, hs) =
      (if_row Q id f r (changed r h) (same r h), All-update_where id f rs same changed hs)

  find-update_where :
      (id : String) (f : JobRow F → JobRow F) (rs : List (JobRow F))
      → ((r : JobRow F) → (f r).id ≡ r.id)
      → find (λ r. str_eq r.id id) (update_where id f rs)
        ≡ map_option f (find (λ r. str_eq r.id id) rs)
  unfolding update_where
  find-update_where id f [] same = refl
  find-update_where id f (r ∷ rs) same = elim (Bool-cases (str_eq r.id id)) [
    | inl e ↦ rw (e, same r, e)
    | inr e ↦ rw (e, e) (find-update_where id f rs same)
  ]

  -- What an UPDATE of the row of an id makes of it.
  pub find_job-update_job :
      (id : String) (f : JobRow F → JobRow F) (db : Db F)
      → ((r : JobRow F) → (f r).id ≡ r.id)
      → find_job id (update_job id f db) ≡ map_option f (find_job id db)
  unfolding find_job update_job
  find_job-update_job id f db same = find-update_where id f db.jobs same

  -- What one update does to each row, done to a list of rows.
  pub update_where-Forall₂ :
      {R : JobRow F → JobRow F → Type 0} {P : JobRow F → Type 0} (id : String)
      (f : JobRow F → JobRow F)
      → ((a b : JobRow F) → P a → R a b → b.id ≡ id → R a (f b))
      → {rs bs : List (JobRow F)} → All P rs
      → Forall₂ R rs bs
      → Forall₂ R rs (update_where id f bs)
  unfolding update_where
  update_where-Forall₂ id f step ps Forall₂.nil = Forall₂.nil
  update_where-Forall₂ {R} id f step ps (Forall₂.cons {a = a} {b = b} r rs) =
      Forall₂.cons (if_row (R a) id f b (step a b ps.0 r) r)
        (update_where-Forall₂ id f step ps.1 rs)
