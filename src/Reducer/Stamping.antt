-- ===== src/Reducer/Stamping.antt =====
-- What the folded entity carries in `_creator`, `_created` and `_ts` (getReducer).
use mathlib.Core.List.{reverse, reverse-cons}
use fabric_es.Prelude.{
  ℕ, String, ◌≡◌, refl, Bool, Option, some, List, [], ◌∷◌, ◌++◌, map, arith, truthy, truthy_num,
  if◌then◌else◌,
}
use fabric_es.Types.{Event}
use fabric_es.Reducer.{Entity, Callback, stamp, get_reducer}

-- The first entry that passes the test, or else the given one.
abbrev pub first_or {ℓ} : {A : Type ℓ} → (A → Bool) → A → List A → A
first_or p a [] = a
first_or p a (x ∷ xs) = if p x then x else first_or p a xs

module _ {P : Type 0} where
  abbrev pub creators : List (Event P) → List (Option String)
  creators = map λ e. e.payload.creator

  abbrev pub created_times : List (Event P) → List (Option ℕ)
  created_times = map λ e. e.payload.created

  abbrev pub timestamps : List (Event P) → List (Option ℕ)
  timestamps = map λ e. e.payload.ts

-- A callback that always returns an entity and leaves the library's fields as they are.
pub record KeepsStamps {P D : Type 0} (callback : Callback P D) : Type 0 where
  pub keeps :
      (n : Entity D) (e : Event P)
      → (m : Entity D) × (callback (some n) e ≡ some m)
        × (m.creator ≡ n.creator)
        × (m.created ≡ n.created)
        × (m.ts ≡ n.ts)

-- `_creator` and `_created` stay once they are set, `_ts` is the last one.
pub record IsStamped {P D : Type 0} (history : List (Event P)) (n m : Entity D) : Type 0 where
  pub creator :
      m.creator
      ≡ (if truthy n.creator then n.creator else first_or truthy n.creator (creators history))
  pub created : m.created ≡ (
      if truthy_num n.created
      then n.created
      else first_or truthy_num n.created (created_times history))
  pub ts : m.ts ≡ first_or truthy_num n.ts (reverse (timestamps history))

first_or-snoc {ℓ} :
    {A : Type ℓ} (p : A → Bool) (a x : A) (xs : List A)
    → first_or p a (xs ++ x ∷ []) ≡ first_or p (if p x then x else a) xs
first_or-snoc p a x [] = refl
first_or-snoc p a x (y ∷ ys) = ground (arith, first_or-snoc p a x ys)

module _ {P D : Type 0} (callback : Callback P D) (k : KeepsStamps callback) where
  -- For a callback that always returns an entity and keeps the library's fields, the reduction of
  -- any history from any entity returns an entity whose _creator and _created are kept once set and
  -- otherwise the first ones of the history, and whose _ts is the last one.
  pub get_reducer-IsStamped :
      (history : List (Event P)) (n : Entity D)
      → (m : Entity D) × (get_reducer callback history (some n) ≡ some m) × IsStamped history n m
  unfolding get_reducer
  get_reducer-IsStamped [] n =
      (n, refl, record { creator = ground arith; created = ground arith; ts = refl })
  get_reducer-IsStamped (e ∷ es) n =
      let (n', called, c, d, t) = k.keeps n e in
      let (m, folded, s) = get_reducer-IsStamped es (stamp e n') in
      (
        m,
        rw called folded,
        record {
          creator = ground (arith, s.creator);
          created = ground (arith, s.created);
          ts = rw (reverse-cons, first_or-snoc) (ground (arith, s.ts));
        },
      )
