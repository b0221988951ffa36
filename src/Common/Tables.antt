-- ===== src/Common/Tables.antt =====
-- Lists as database tables: select, update, insert, and the sum of a column.
use Prim.Native.Nat.{ℕ, suc, ◌+◌}
use mathlib.Core.Path.{◌≡◌, refl, sym, subst}
use mathlib.Core.Bool.{Bool, true, false, ◌&&◌}
use mathlib.Core.Option.{Option, none, some}
use mathlib.Core.Logic.{inl, inr}
use mathlib.Core.List.{List, [], ◌∷◌, ◌++◌}
use native.Mathlib.Omega.{arith}
use automatizacion_wh.Common.Tests.{if◌then◌else◌, Bool-cases}

module _ {ℓ} {A : Type ℓ} where
  abbrev pub length : List A → ℕ
  length [] = 0
  length (x ∷ xs) = suc (length xs)

  -- `SELECT ... WHERE test LIMIT 1`.
  unfoldable pub select_one : (A → Bool) → List A → Option A
  select_one p [] = none
  select_one p (x ∷ xs) = if p x then some x else select_one p xs

  -- `UPDATE ... SET f WHERE test`.
  unfoldable pub update_where : (A → Bool) → (A → A) → List A → List A
  update_where p f [] = []
  update_where p f (x ∷ xs) = (if p x then f x else x) ∷ update_where p f xs

  -- `SELECT ... WHERE test`.
  unfoldable pub select_all : (A → Bool) → List A → List A
  select_all p [] = []
  select_all p (x ∷ xs) = if p x then x ∷ select_all p xs else select_all p xs

  unfoldable pub exists_row : (A → Bool) → List A → Bool
  exists_row p [] = false
  exists_row p (x ∷ xs) = if p x then true else exists_row p xs

  abbrev earlier_by : (A → A → Bool) → A → Option A → A
  earlier_by before x none = x
  earlier_by before x (some y) = if before y x then y else x

  -- `ORDER BY ... LIMIT 1`: the test says which row comes first.
  unfoldable pub first_by : (A → A → Bool) → List A → Option A
  first_by before [] = none
  first_by before (x ∷ xs) = some (earlier_by before x (first_by before xs))

  -- The sum of a column over the rows.
  unfoldable pub sum_of : (A → ℕ) → List A → ℕ
  sum_of f [] = 0
  sum_of f (x ∷ xs) = f x + sum_of f xs

  abbrev pub All {κ} : (A → Type κ) → List A → Type κ
  All P [] = Unit
  All P (x ∷ xs) = P x × All P xs

  pub All-select_one {κ} :
      (P : A → Type κ) (p : A → Bool) (xs : List A) {a : A}
      → All P xs
      → select_one p xs ≡ some a
      → P a × (p a ≡ true)
  unfolding select_one
  All-select_one P p [] h e = cc
  All-select_one P p (x ∷ xs) {a} h e = ground (arith, All-select_one P p xs {a = a} h.1)

  pub All-update_where {κ} :
      (P : A → Type κ) (p : A → Bool) (f : A → A) (xs : List A)
      → ((a : A) → p a ≡ true → P a → P (f a))
      → All P xs
      → All P (update_where p f xs)
  unfolding update_where
  All-update_where P p f [] keep h = h
  All-update_where P p f (x ∷ xs) keep h =
      ground (arith, keep x, All-update_where P p f xs keep h.1)

  -- The row that a select finds passes the test.
  pub select_one_sound :
      (p : A → Bool) (xs : List A) {a : A} → select_one p xs ≡ some a → p a ≡ true
  unfolding select_one
  select_one_sound p [] e = cc
  select_one_sound p (x ∷ xs) {a} e = ground (arith, select_one_sound p xs {a = a})

  pub sum_of-append : (f : A → ℕ) (xs ys : List A) → sum_of f (xs ++ ys) ≡ sum_of f xs + sum_of f ys
  unfolding sum_of
  sum_of-append f [] ys = omega arith
  sum_of-append f (x ∷ xs) ys = omega (arith, sum_of-append f xs ys)

  -- An update that leaves a column alone leaves its sum alone.
  pub sum_of-update_where_same :
      (f : A → ℕ) (p : A → Bool) (g : A → A) (xs : List A)
      → ((a : A) → p a ≡ true → f (g a) ≡ f a)
      → sum_of f (update_where p g xs) ≡ sum_of f xs
  unfolding sum_of update_where
  sum_of-update_where_same f p g [] h = refl
  sum_of-update_where_same f p g (x ∷ xs) h =
      ground (arith, h x, sum_of-update_where_same f p g xs h)

  -- At most one row passes the test of a primary key.
  abbrev pub AtMostOne : (A → Bool) → List A → Type 0
  AtMostOne p [] = Unit
  AtMostOne p (x ∷ xs) = (p x ≡ true → exists_row p xs ≡ false) × AtMostOne p xs

  pub update_where_absent :
      (p : A → Bool) (g : A → A) (xs : List A) → exists_row p xs ≡ false → update_where p g xs ≡ xs
  unfolding update_where exists_row
  update_where_absent p g [] h = refl
  update_where_absent p g (x ∷ xs) h = ground (arith, update_where_absent p g xs)

  -- An update by primary key moves the sum by the change of the row that it writes.
  pub sum_of-update_where :
      (f : A → ℕ) (p : A → Bool) (g : A → A) (xs : List A) {a : A}
      → AtMostOne p xs
      → select_one p xs ≡ some a
      → sum_of f (update_where p g xs) + f a ≡ sum_of f xs + f (g a)
  unfolding sum_of update_where select_one
  sum_of-update_where f p g [] u e = cc
  sum_of-update_where f p g (x ∷ xs) {a} u e =
      ground (arith, update_where_absent p g xs, sum_of-update_where f p g xs {a = a} u.1)

  -- A select by the same test finds the row as the update left it.
  pub select_one-update_where :
      (p : A → Bool) (g : A → A) (xs : List A) {a : A}
      → ((b : A) → p b ≡ true → p (g b) ≡ true)
      → select_one p xs ≡ some a
      → select_one p (update_where p g xs) ≡ some (g a)
  unfolding update_where select_one
  select_one-update_where p g [] k e = cc
  select_one-update_where p g (x ∷ xs) {a} k e =
      ground (arith, k x, select_one-update_where p g xs {a = a} k)

  pub exists_row-update_where :
      (q p : A → Bool) (g : A → A) (xs : List A)
      → ((b : A) → q (g b) ≡ q b)
      → exists_row q (update_where p g xs) ≡ exists_row q xs
  unfolding update_where exists_row
  exists_row-update_where q p g [] k = refl
  exists_row-update_where q p g (x ∷ xs) k = ground (arith, k x, exists_row-update_where q p g xs k)

  -- An update that writes no key column keeps a key unique.
  pub AtMostOne-update_where :
      (q p : A → Bool) (g : A → A) (xs : List A)
      → ((b : A) → q (g b) ≡ q b)
      → AtMostOne q xs
      → AtMostOne q (update_where p g xs)
  unfolding update_where
  AtMostOne-update_where q p g [] k u = tt
  AtMostOne-update_where q p g (x ∷ xs) k u =
      ground (arith, k x, exists_row-update_where q p g xs k, AtMostOne-update_where q p g xs k u.1)

  -- A property of all rows survives an update by primary key if the written row has it.
  pub All-update_where_one {κ} :
      (P : A → Type κ) (p : A → Bool) (g : A → A) (xs : List A) {a : A}
      → AtMostOne p xs
      → select_one p xs ≡ some a
      → P (g a)
      → All P xs
      → All P (update_where p g xs)
  unfolding update_where select_one
  All-update_where_one P p g [] u e h all = tt
  All-update_where_one P p g (x ∷ xs) {a} u e h all = elim (Bool-cases (p x)) [
    | inl hit ↦
        let same : x ≡ a = ground arith in
        rw (hit, update_where_absent p g xs (u.0 hit)) (subst (λ y. P (g y)) (sym same) h, all.1)
    | inr miss ↦ rw miss (all.0, All-update_where_one P p g xs {a = a} u.1 (rw miss at e) h all.1)
  ]

  -- No row passes the test where the select finds none.
  pub select_one-none :
      (p : A → Bool) (xs : List A) → select_one p xs ≡ none → exists_row p xs ≡ false
  unfolding select_one exists_row
  select_one-none p [] e = refl
  select_one-none p (x ∷ xs) e = ground (arith, select_one-none p xs)

  -- A select that an update writes no row of finds the rows as they were.
  pub select_all-update_where :
      (q p : A → Bool) (g : A → A) (xs : List A)
      → ((b : A) → p b ≡ true → (q b ≡ false) × (q (g b) ≡ false))
      → select_all q (update_where p g xs) ≡ select_all q xs
  unfolding update_where select_all
  select_all-update_where q p g [] k = refl
  select_all-update_where q p g (x ∷ xs) k = ground (arith, k x, select_all-update_where q p g xs k)

  -- A select finds the row as the update left it, where the update asks for more than the select.
  pub select_one-update_where_and :
      (p q : A → Bool) (g : A → A) (xs : List A) {a : A}
      → ((b : A) → p b ≡ true → p (g b) ≡ true)
      → select_one p xs ≡ some a
      → q a ≡ true
      → select_one p (update_where (λ b. p b && q b) g xs) ≡ some (g a)
  unfolding update_where select_one
  select_one-update_where_and p q g [] k e t = cc
  select_one-update_where_and p q g (x ∷ xs) {a} k e t = elim (Bool-cases (p x)) [
    | inl hit ↦
        let same : x ≡ a = ground arith in
        let passes : q x ≡ true = subst (λ y. q y ≡ true) (sym same) t in
        rw (hit, passes, k x hit) (subst (λ y. some (g x) ≡ some (g y)) same refl)
    | inr miss ↦ rw (miss, miss) (select_one-update_where_and p q g xs {a = a} k (rw miss at e) t)
  ]
