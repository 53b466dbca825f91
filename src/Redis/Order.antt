-- ===== src/Redis/Order.antt =====
-- The order of restored commits: the query of packages/fabric-cqrs/src/queryHandler/createRedisRepository.ts
-- sorts what a scan of the keys has found in any order.
use mathlib.Core.Path.{subst}
use mathlib.Core.List.{Permᴰ}
use fabric_es.Prelude.{
  ℕ, ◌≡◌, refl, sym, ap, ◌∙◌, true, some, List, [], ◌∷◌, arith, is_some, some_of_is_some, map, ltb,
  Bool-cases, inl, inr, ◌≢◌,
}
use fabric_es.Redis.Keys.{ts_le, insert_by_ts, sort_by_ts}
use fabric_es.Redis.Selectors.{OutputCommit}

module _ {P : Type 0} where
  abbrev pub IsDated : List (OutputCommit P) → Type 0
  IsDated [] = Unit
  IsDated (c ∷ cs) = (is_some c.ts ≡ true) × IsDated cs

  insert-earlier :
      (a b : OutputCommit P) (m n : ℕ) (cs : List (OutputCommit P))
      → a.ts ≡ some m
      → b.ts ≡ some n
      → ltb m n ≡ true
      → IsDated cs
      → insert_by_ts a (insert_by_ts b cs) ≡ insert_by_ts b (insert_by_ts a cs)
  unfolding insert_by_ts
  insert-earlier a b m n [] ha hb h d = rw (ha, hb) (ground arith)
  insert-earlier a b m n (c ∷ cs) ha hb h d =
      let (k, hc) = some_of_is_some c.ts d.0 in
      ground (arith, insert-earlier a b m n cs ha hb h d.1)

  insert-insert :
      (a b : OutputCommit P) (cs : List (OutputCommit P))
      → is_some a.ts ≡ true
      → is_some b.ts ≡ true
      → (a.ts ≡ b.ts → a ≡ b)
      → IsDated cs
      → insert_by_ts a (insert_by_ts b cs) ≡ insert_by_ts b (insert_by_ts a cs)
  insert-insert a b cs ha hb apart d =
      let (m, am) = some_of_is_some a.ts ha in
      let (n, bn) = some_of_is_some b.ts hb in
      elim (Bool-cases (ltb m n)) [
        | inl h ↦ insert-earlier a b m n cs am bn h d
        | inr h ↦ elim (Bool-cases (ltb n m)) [
          | inl g ↦ sym (insert-earlier b a n m cs bn am g d)
          | inr g ↦
              let e : m ≡ n = ground arith in
              let s : a ≡ b = apart (am ∙ ap some e ∙ sym bn) in rw s refl
        ]
      ]

  IsDated-insert :
      (a : OutputCommit P) (cs : List (OutputCommit P))
      → is_some a.ts ≡ true
      → IsDated cs
      → IsDated (insert_by_ts a cs)
  unfolding insert_by_ts
  IsDated-insert a [] h d = (h, d)
  IsDated-insert a (c ∷ cs) h d = elim (Bool-cases (ts_le a.ts c.ts)) [
    | inl y ↦ rw y (h, d)
    | inr n ↦ rw n (d.0, IsDated-insert a cs h d.1)
  ]

  IsDated-sort : (cs : List (OutputCommit P)) → IsDated cs → IsDated (sort_by_ts cs)
  unfolding sort_by_ts
  IsDated-sort [] d = d
  IsDated-sort (c ∷ cs) d = IsDated-insert c (sort_by_ts cs) d.0 (IsDated-sort cs d.1)

  -- The time of a commit differs from those of all of a list.
  abbrev pub Differs : OutputCommit P → List (OutputCommit P) → Type 0
  Differs c [] = Unit
  Differs c (d ∷ ds) = (c.ts ≢ d.ts) × Differs c ds

  -- Every commit has a time, and no two of the list have the same.
  abbrev pub IsApart : List (OutputCommit P) → Type 0
  IsApart [] = Unit
  IsApart (c ∷ cs) = (is_some c.ts ≡ true) × Differs c cs × IsApart cs

  IsApart-IsDated : (cs : List (OutputCommit P)) → IsApart cs → IsDated cs
  IsApart-IsDated [] h = tt
  IsApart-IsDated (c ∷ cs) (h, d, r) = (h, IsApart-IsDated cs r)

  Differs-Perm :
      (c : OutputCommit P) {cs ds : List (OutputCommit P)}
      → Permᴰ cs ds
      → Differs c cs
      → Differs c ds
  Differs-Perm c Permᴰ.nil h = tt
  Differs-Perm c (Permᴰ.cons e d) (h, r) = (rw (← e) h, Differs-Perm c d r)
  Differs-Perm c (Permᴰ.swap e f) (h, (g, r)) = (rw (← f) g, (rw (← e) h, r))
  Differs-Perm c (Permᴰ.trans d e) h = Differs-Perm c e (Differs-Perm c d h)

  IsApart-Perm : {cs ds : List (OutputCommit P)} → Permᴰ cs ds → IsApart cs → IsApart ds
  IsApart-Perm Permᴰ.nil h = tt
  IsApart-Perm (Permᴰ.cons {a} {b} {l₁} {l₂} e d) (h, g, r) =
      (rw (← e) h, rw (← e) (Differs-Perm a d g), IsApart-Perm d r)
  IsApart-Perm (Permᴰ.swap {a} {b} {a'} {b'} {l} e f) (h, (g, k), (m, n, r)) =
      let swapped : b ∷ a ∷ l ≡ a' ∷ b' ∷ l = rw (f, e) refl in
      subst IsApart swapped (m, (λ q. g (sym q), n), (h, k, r))
  IsApart-Perm (Permᴰ.trans d e) h = IsApart-Perm e (IsApart-Perm d h)

  sort-Perm :
      {cs ds : List (OutputCommit P)} → Permᴰ cs ds → IsApart cs → sort_by_ts cs ≡ sort_by_ts ds
  unfolding sort_by_ts
  sort-Perm Permᴰ.nil h = refl
  sort-Perm (Permᴰ.cons {a} {b} {l₁} {l₂} e d) (h, g, r) =
      rw e (ap (insert_by_ts b) (sort-Perm d r))
  sort-Perm (Permᴰ.swap {a} {b} {a'} {b'} {l} e f) (h, (g, k), (m, n, r)) =
      rw (← e, ← f)
        (insert-insert a b (sort_by_ts l) h m (λ q. absurd (g q))
          (IsDated-sort l (IsApart-IsDated l r)))
  sort-Perm (Permᴰ.trans d e) h = sort-Perm d h ∙ sort-Perm e (IsApart-Perm d h)

  -- Each commit is not later than the next one.
  abbrev pub IsSorted : List (OutputCommit P) → Type 0
  IsSorted [] = Unit
  IsSorted (c ∷ []) = Unit
  IsSorted (c ∷ d ∷ cs) = (ts_le c.ts d.ts ≡ true) × IsSorted (d ∷ cs)

  sort-IsSorted : (cs : List (OutputCommit P)) → IsSorted cs → sort_by_ts cs ≡ cs
  unfolding sort_by_ts insert_by_ts
  sort-IsSorted [] h = refl
  sort-IsSorted (c ∷ []) h = refl
  sort-IsSorted (c ∷ d ∷ cs) h = ap (insert_by_ts c) (sort-IsSorted (d ∷ cs) h.1) ∙ rw h.0 refl

  -- If every restored commit has a time and no two have the same, the sort gives the log in the
  -- order of its times, whatever the order in which the scan has found its commits.
  pub sort_by_ts-Perm :
      {cs ds : List (OutputCommit P)} → Permᴰ cs ds → IsApart cs → IsSorted ds → sort_by_ts cs ≡ ds
  sort_by_ts-Perm {cs} {ds} p h s = sort-Perm p h ∙ sort-IsSorted ds s

pub map-Permᴰ :
    {A B : Type 0} → (f : A → B) {xs ys : List A} → Permᴰ xs ys → Permᴰ (map f xs) (map f ys)
map-Permᴰ f Permᴰ.nil = Permᴰ.nil
map-Permᴰ f (Permᴰ.cons e d) = Permᴰ.cons (ap f e) (map-Permᴰ f d)
map-Permᴰ f (Permᴰ.swap e g) = Permᴰ.swap (ap f e) (ap f g)
map-Permᴰ f (Permᴰ.trans d e) = Permᴰ.trans (map-Permᴰ f d) (map-Permᴰ f e)
