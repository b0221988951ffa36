-- ===== src/Common/Members.antt =====
-- The members of the rows that a select finds.
use mathlib.Core.Path.{◌≡◌, refl, sym, ap, subst}
use mathlib.Core.Logic.{inl, inr}
use mathlib.Core.Bool.{Bool, true}
use mathlib.Core.Option.{some}
use mathlib.Core.List.{List, [], ◌∷◌, Memᴰ}
use native.Mathlib.Omega.{arith}
use automatizacion_wh.Common.Tests.{Bool-cases, Option-cases}
use automatizacion_wh.Common.Tables.{select_one, select_all, update_where, exists_row, first_by}

module _ {ℓ} {A : Type ℓ} (p : A → Bool) where
  pub select_one-Mem : (xs : List A) {a : A} → select_one p xs ≡ some a → Memᴰ a xs × (p a ≡ true)
  unfolding select_one
  select_one-Mem [] e = cc
  select_one-Mem (x ∷ xs) {a} e = elim (Bool-cases (p x)) [
    | inl hit ↦
        let same : x ≡ a = ground arith in (Memᴰ.head (sym same), subst (λ y. p y ≡ true) same hit)
    | inr miss ↦ let (m, t) = select_one-Mem xs {a = a} (ground arith) in (Memᴰ.tail m, t)
  ]

  pub select_one_total :
      (xs : List A) {a : A} → Memᴰ a xs → p a ≡ true → (b : A) × (select_one p xs ≡ some b)
  unfolding select_one
  select_one_total [] m t = elim m [ ]
  select_one_total (x ∷ xs) (Memᴰ.head e) t = (x, rw (subst (λ y. p y ≡ true) e t))
  select_one_total (x ∷ xs) (Memᴰ.tail m) t = elim (Bool-cases (p x)) [
    | inl hit ↦ (x, rw hit)
    | inr miss ↦ let (b, found) = select_one_total xs m t in (b, rw miss found)
  ]

  pub select_all-Mem : (xs : List A) {a : A} → Memᴰ a (select_all p xs) → Memᴰ a xs × (p a ≡ true)
  unfolding select_all
  select_all-Mem [] m = elim m [ ]
  select_all-Mem (x ∷ xs) {a} m = elim (Bool-cases (p x)) [
    | inl hit ↦ kept hit (rw hit at m) (select_all-Mem xs)
    | inr miss ↦ let (n, t) = select_all-Mem xs {a = a} (rw miss at m) in (Memᴰ.tail n, t)
  ]
    where
      kept :
          p x ≡ true
          → Memᴰ a (x ∷ select_all p xs)
          → (Memᴰ a (select_all p xs) → Memᴰ a xs × (p a ≡ true))
          → Memᴰ a (x ∷ xs) × (p a ≡ true)
      kept hit (Memᴰ.head e) ih = (Memᴰ.head e, subst (λ y. p y ≡ true) (sym e) hit)
      kept hit (Memᴰ.tail n) ih = (Memᴰ.tail (ih n).0, (ih n).1)

  pub Mem-select_all : (xs : List A) {a : A} → Memᴰ a xs → p a ≡ true → Memᴰ a (select_all p xs)
  unfolding select_all
  Mem-select_all [] m t = elim m [ ]
  Mem-select_all (x ∷ xs) (Memᴰ.head e) t = rw (subst (λ y. p y ≡ true) e t) (Memᴰ.head e)
  Mem-select_all (x ∷ xs) (Memᴰ.tail m) t = elim (Bool-cases (p x)) [
    | inl hit ↦ rw hit (Memᴰ.tail (Mem-select_all xs m t))
    | inr miss ↦ rw miss (Mem-select_all xs m t)
  ]

module _ {ℓ} {A : Type ℓ} (p : A → Bool) where
  -- A row that exists is found.
  pub exists_row-select_one :
      (xs : List A) → exists_row p xs ≡ true → (a : A) × (select_one p xs ≡ some a)
  unfolding exists_row select_one
  exists_row-select_one [] e = cc
  exists_row-select_one (x ∷ xs) e = elim (Bool-cases (p x)) [
    | inl hit ↦ (x, rw hit refl)
    | inr miss ↦ let (a, found) = exists_row-select_one xs (rw miss at e) in (a, rw miss found)
  ]

  -- A row that an update writes is a row afterwards.
  pub Mem-update_where :
      (g : A → A) (xs : List A) {a : A} → Memᴰ a xs → p a ≡ true → Memᴰ (g a) (update_where p g xs)
  unfolding update_where
  Mem-update_where g [] m t = elim m [ ]
  Mem-update_where g (x ∷ xs) {a} (Memᴰ.head e) t =
      Memᴰ.head (sym (rw (subst (λ y. p y ≡ true) e t) (ap g (sym e))))
  Mem-update_where g (x ∷ xs) (Memᴰ.tail m) t = Memᴰ.tail (Mem-update_where g xs m t)

-- The first row of an order is a row.
pub first_by-Mem {ℓ} :
    {A : Type ℓ} (before : A → A → Bool) (xs : List A) {a : A}
    → first_by before xs ≡ some a
    → Memᴰ a xs
unfolding first_by
first_by-Mem before [] e = cc
first_by-Mem before (x ∷ xs) {a} e = elim (Option-cases (first_by before xs)) [
  | inl last ↦ Memᴰ.head (ground arith)
  | inr (y, found) ↦ elim (Bool-cases (before y x)) [
    | inl sooner ↦ Memᴰ.tail (first_by-Mem before xs (ground arith))
    | inr later ↦ Memᴰ.head (ground arith)
  ]
]
