-- ===== src/Store/Pages.antt =====
-- packages/fabric-cqrs/src/utils/getPaginated.ts: the pages of a search.
-- The search itself is a parameter.
use fabric_es.Prelude.{
  ℕ, zero, suc, ◌≡◌, refl, ap, sym, ◌∙◌, Bool, false, Option, none, some, List, [], ◌∷◌, ◌++◌,
  length, arith, ltb, eqb, ◌+◌, ◌-◌, ◌≤◌, ◌<◌, if◌then◌else◌,
}

pub record Paginated (A : Type 0) : Type 0 where
  pub total : ℕ
  pub items : List A
  pub has_more : Bool
  pub cursor : Option ℕ

module _ {A : Type 0} where
  abbrev pub or_nothing : Option (List A) → List A
  or_nothing none = []
  or_nothing (some xs) = xs

  -- `items?.length` counts as true when there is an item.
  unfoldable pub get_paginated : Option (List A) → ℕ → ℕ → Paginated A
  get_paginated items total cursor =
      let n = length (or_nothing items) in
      record {
        total = total;
        items = or_nothing items;
        has_more = if eqb n 0 then false else ltb (cursor + n) total;
        cursor = if eqb n 0 then none else some (cursor + n);
      }

  -- The items from a position on, and so many of them.
  abbrev pub drop : ℕ → List A → List A
  drop zero xs = xs
  drop (suc n) [] = []
  drop (suc n) (x ∷ xs) = drop n xs

  abbrev pub take : ℕ → List A → List A
  take zero xs = []
  take (suc n) [] = []
  take (suc n) (x ∷ xs) = x ∷ take n xs

  drop-nil : (n : ℕ) → drop n [] ≡ []
  drop-nil zero = refl
  drop-nil (suc n) = refl

  take-drop : (n : ℕ) (xs : List A) → take n xs ++ drop (length (take n xs)) xs ≡ xs
  take-drop zero xs = refl
  take-drop (suc n) [] = refl
  take-drop (suc n) (x ∷ xs) = ap (λ ys. x ∷ ys) (take-drop n xs)

  drop-drop : (m n : ℕ) (xs : List A) → drop n (drop m xs) ≡ drop (m + n) xs
  drop-drop zero n xs = let e : n ≡ 0 + n = omega arith in ap (λ k. drop k xs) e
  drop-drop (suc m) n [] = drop-nil n ∙ sym (drop-nil (suc m + n))
  drop-drop (suc m) n (x ∷ xs) =
      let e : suc (m + n) ≡ suc m + n = omega arith in
      drop-drop m n xs ∙ ap (λ k. drop k (x ∷ xs)) e

  length-drop : (m : ℕ) (xs : List A) → length (drop m xs) ≡ length xs - m
  length-drop zero xs = omega arith
  length-drop (suc m) [] = omega arith
  length-drop (suc m) (x ∷ xs) = omega (arith, length-drop m xs)

  length-take : (n : ℕ) (xs : List A) → length (take n xs) ≤ length xs
  length-take zero xs = omega arith
  length-take (suc n) [] = omega arith
  length-take (suc n) (x ∷ xs) = omega (arith, length-take n xs)

  length-take-pos : (n : ℕ) (xs : List A) → 0 < n → 0 < length xs → 0 < length (take n xs)
  length-take-pos zero xs p q = omega arith
  length-take-pos (suc n) [] p q = omega arith
  length-take-pos (suc n) (x ∷ xs) p q = omega arith

  -- The page at a cursor, of a search that finds these items.
  abbrev pub page_of : List A → ℕ → ℕ → Paginated A
  page_of all cursor pagesize =
      get_paginated (some (take pagesize (drop cursor all))) (length all) cursor

  -- If a search answers with the items from a cursor on, at most pagesize of them, the cursor is
  -- below the total and the pagesize is positive, then the next cursor is greater than the cursor
  -- and at most the total, the page followed by the items from the next cursor on are the items
  -- from the cursor on, and there is more exactly when the next cursor is below the total.
  pub get_paginated-progress :
      (all : List A) (cursor pagesize : ℕ)
      → cursor < length all
      → 0 < pagesize
      → (next : ℕ) × ((page_of all cursor pagesize).cursor ≡ some next)
        × (cursor < next)
        × (next ≤ length all)
        × ((page_of all cursor pagesize).items ++ drop next all ≡ drop cursor all)
        × ((page_of all cursor pagesize).has_more ≡ ltb next (length all))
  unfolding get_paginated
  get_paginated-progress all cursor pagesize c p =
      let n = length (take pagesize (drop cursor all)) in
      let rest = length-drop cursor all in
      let few = length-take pagesize (drop cursor all) in
      let some_item = length-take-pos pagesize (drop cursor all) p (omega (arith, rest)) in
      let page = take-drop pagesize (drop cursor all) in
      (
        cursor + n,
        ground (arith, some_item),
        omega (arith, some_item),
        omega (arith, rest, few),
        ap (λ ys. take pagesize (drop cursor all) ++ ys) (sym (drop-drop cursor n all)) ∙ page,
        ground (arith, some_item),
      )
