-- ===== src/Shipping/Selection/Laws/Sorting.antt =====
-- The head of the sorted quotes.
use automatizacion_wh.Common.{
  ℕ, ◌≤◌, ◌≡◌, refl, inl, inr, List, [], ◌∷◌, leb, All, Memᴰ, Bool-cases, arith,
}
use automatizacion_wh.Shipping.Selection.{CarrierQuote, total, insert_quote, sort_quotes}

-- No listed quote costs less.
abbrev pub IsCheapest : CarrierQuote → List CarrierQuote → Type 0
IsCheapest h qs = Memᴰ h qs × All (λ q. total h ≤ total q) qs

All-le_trans :
    (m n : ℕ) (qs : List CarrierQuote)
    → m ≤ n
    → All (λ q. n ≤ total q) qs
    → All (λ q. m ≤ total q) qs
All-le_trans m n [] h a = tt
All-le_trans m n (q ∷ qs) h a = (omega arith, All-le_trans m n qs h a.1)

-- A sorted non-empty list begins with a cheapest quote.
pub sort_quotes-IsCheapest :
    (q : CarrierQuote) (qs : List CarrierQuote)
    → (h : CarrierQuote) × (rest : List CarrierQuote) × (sort_quotes (q ∷ qs) ≡ h ∷ rest)
      × IsCheapest h (q ∷ qs)
unfolding sort_quotes insert_quote
sort_quotes-IsCheapest q [] = (q, [], refl, (Memᴰ.head refl, omega arith))
sort_quotes-IsCheapest q (r ∷ rs) =
    let (h, rest, sorted, (m, least)) = sort_quotes-IsCheapest r rs in
    elim (Bool-cases (leb (total q) (total h))) [
      | inl le ↦ (
        q,
        h ∷ rest,
        rw (sorted, insert_quote) (rw le),
        (
          Memᴰ.head refl,
          (omega arith, All-le_trans (total q) (total h) (r ∷ rs) (ground arith) least),
        ),
      )
      | inr gt ↦ (
        h,
        insert_quote q rest,
        rw (sorted, insert_quote) (rw gt),
        (Memᴰ.tail m, (ground arith, least)),
      )
    ]

-- The same of a list with a member.
pub sort_quotes_total :
    (qs : List CarrierQuote) {q : CarrierQuote}
    → Memᴰ q qs
    → (h : CarrierQuote) × (rest : List CarrierQuote) × (sort_quotes qs ≡ h ∷ rest)
      × IsCheapest h qs
sort_quotes_total [] m = elim m [ ]
sort_quotes_total (q ∷ qs) m = sort_quotes-IsCheapest q qs
