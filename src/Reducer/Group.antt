-- ===== src/Reducer/Group.antt =====
-- packages/fabric-cqrs/src/queryHandler/commitsToGroupByEntityId.ts: the current state of every
-- entity of a list of commits, and the ids of those that do not reduce.
use mathlib.Core.List.{append_assoc, append-nil}
use mathlib.Core.Path.{subst₂}
use fabric_es.Prelude.{
  String, ◌≡◌, refl, sym, ap, ◌∙◌, Bool, true, ◌||◌, ◌==◌, eq_iff, none, some, Option-cases,
  Bool-cases, inl, inr, ◌⊎◌, Result-cases, some_of_is_some, List, [], ◌∷◌, ◌++◌, arith, Result, ok,
  throw, type_error, ◌>>=◌, Dict, lookup, assign, lookup-assign, text_of, any, select, Member,
  is_some, all, if◌then◌else◌,
}
use fabric_es.Types.{Event, Commit}
use fabric_es.Reducer.{Entity, Reducer, or_empty}
use fabric_es.Reducer.Compute.{history_of, has_events}

pub record Grouped (D : Type 0) : Type 0 where
  pub current_states : List (Entity D)
  pub errors : List String

module _ {P : Type 0} where
  pub push_events : String → List (Event P) → Dict (List (Event P)) → Dict (List (Event P))
  push_events k es g = assign k (or_empty (lookup k g) ++ es) g

  -- The `reduce` over the commits.
  pub group_events : Dict (List (Event P)) → List (Commit P) → Result (Dict (List (Event P)))
  unfolding push_events
  group_events g [] = ok g
  group_events g (c ∷ cs) = elim c.events [
    | none ↦ throw type_error
    | some es ↦ group_events (push_events (text_of c.entity_id) es g) cs
  ]

module _ {P D : Type 0} (reducer : Reducer P D) where
  -- The `forEach` over the entries.
  pub reduce_groups : Dict (List (Event P)) → Grouped D
  reduce_groups [] = record { current_states = []; errors = [] }
  reduce_groups ((k, es) ∷ g) =
      let rest = reduce_groups g in
      elim (reducer es) [
        | some n ↦ record { current_states = n ∷ rest.current_states; errors = rest.errors }
        | none ↦ record { current_states = rest.current_states; errors = k ∷ rest.errors }
      ]

  unfoldable pub commits_to_group_by_entity_id : List (Commit P) → Result (Grouped D)
  unfolding group_events reduce_groups
  commits_to_group_by_entity_id commits = do g ← group_events [] commits; ok (reduce_groups g)

module _ {P : Type 0} where
  abbrev pub of_entity : String → Commit P → Bool
  of_entity k c = text_of c.entity_id == k

  -- The events of one entity, in the order of the commits.
  abbrev pub events_for : String → List (Commit P) → List (Event P)
  events_for k cs = history_of (select (of_entity k) cs)

  events_for-cons :
      (k : String) (c : Commit P) (es : List (Event P)) (cs : List (Commit P))
      → c.events ≡ some es
      → events_for k (c ∷ cs) ≡ (if text_of c.entity_id == k then es else []) ++ events_for k cs
  events_for-cons k c es cs e = elim (Bool-cases (text_of c.entity_id == k)) [
    | inl y ↦ rw (y, e) refl
    | inr n ↦ rw n refl
  ]

  or_empty-push_events :
      (k j : String) (es : List (Event P)) (g : Dict (List (Event P)))
      → or_empty (lookup j (push_events k es g))
        ≡ or_empty (lookup j g) ++ (if k == j then es else [])
  unfolding push_events
  or_empty-push_events k j es g = rw lookup-assign (elim (Bool-cases (k == j)) [
    | inl e ↦ rw (e, (eq_iff k j).0 e) refl
    | inr e ↦ rw e (sym (append-nil _))
  ])

  is_some-push_events :
      (k j : String) (es : List (Event P)) (g : Dict (List (Event P)))
      → is_some (lookup j (push_events k es g)) ≡ (k == j || is_some (lookup j g))
  unfolding push_events
  is_some-push_events k j es g = rw lookup-assign (ground arith)

  -- The group of each entity, for any groups to begin with.
  group_events_lem :
      (cs : List (Commit P)) (g h : Dict (List (Event P))) (k : String)
      → group_events g cs ≡ ok h
      → (or_empty (lookup k h) ≡ or_empty (lookup k g) ++ events_for k cs)
        × (is_some (lookup k h) ≡ (is_some (lookup k g) || any (of_entity k) cs))
  unfolding group_events
  group_events_lem [] g h k e = (ground (arith, append-nil (or_empty (lookup k g))), ground arith)
  group_events_lem (c ∷ cs) g h k e = elim (Option-cases c.events) [
    | inl missing ↦ absurd (ground arith)
    | inr (es, found) ↦
        let key = text_of c.entity_id in
        let own : List (Event P) = if key == k then es else [] in
        let (events, there) = group_events_lem cs (push_events key es g) h k (ground arith) in
        (
          events
              ∙ rw (or_empty-push_events, events_for-cons k c es cs found)
                  (append_assoc (or_empty (lookup k g)) own (events_for k cs)),
          ground (arith, there, is_some-push_events key k es g),
        )
  ]

-- Entity `k` is settled: its state is listed, or its id is among the errors.
abbrev pub IsSettled : {P D : Type 0} → Reducer P D → String → List (Event P) → Grouped D → Type 0
IsSettled {D} reducer k es r =
    ((n : Entity D) × (reducer es ≡ some n) × Member n r.current_states)
    ⊎ ((reducer es ≡ none) × Member k r.errors)

module _ {P D : Type 0} (reducer : Reducer P D) where
  IsSettled-head :
      (k : String) (es : List (Event P)) (g : Dict (List (Event P)))
      → IsSettled reducer k es (reduce_groups reducer ((k, es) ∷ g))
  unfolding reduce_groups
  IsSettled-head k es g = elim (Option-cases (reducer es)) [
    | inl e ↦ rw (e, reduce_groups) (inr (refl, inl refl))
    | inr (n, e) ↦ rw (e, reduce_groups) (inl (n, refl, inl refl))
  ]

  IsSettled-cons :
      (j k : String) (fs es : List (Event P)) (g : Dict (List (Event P)))
      → IsSettled reducer k es (reduce_groups reducer g)
      → IsSettled reducer k es (reduce_groups reducer ((j, fs) ∷ g))
  unfolding reduce_groups
  IsSettled-cons j k fs es g (inl (n, e, m)) = elim (Option-cases (reducer fs)) [
    | inl f ↦ rw (f, reduce_groups) (inl (n, e, m))
    | inr (x, f) ↦ rw (f, reduce_groups) (inl (n, e, inr m))
  ]
  IsSettled-cons j k fs es g (inr (e, m)) = elim (Option-cases (reducer fs)) [
    | inl f ↦ rw (f, reduce_groups) (inr (e, inr m))
    | inr (x, f) ↦ rw (f, reduce_groups) (inr (e, m))
  ]

  reduce_groups_lem :
      (g : Dict (List (Event P))) (k : String) (es : List (Event P))
      → lookup k g ≡ some es
      → IsSettled reducer k es (reduce_groups reducer g)
  unfolding lookup
  reduce_groups_lem [] k es e = cc
  reduce_groups_lem ((j, fs) ∷ g) k es e = elim (Bool-cases (j == k)) [
    | inl y ↦
        let same_events : fs ≡ es = ground arith in
        rw (← same_events, ← (eq_iff j k).0 y) (IsSettled-head j fs g)
    | inr n ↦ IsSettled-cons j k fs es g (reduce_groups_lem g k es (ground arith))
  ]

  settled_lem :
      (commits : List (Commit P)) (r : Grouped D) (k : String)
      → commits_to_group_by_entity_id reducer commits ≡ ok r
      → any (of_entity k) commits ≡ true
      → IsSettled reducer k (events_for k commits) r
  unfolding commits_to_group_by_entity_id lookup
  settled_lem commits r k e h = elim (Result-cases (group_events [] commits)) [
    | inl (g, grouped) ↦
        let (events, there) = group_events_lem commits [] g k grouped in
        let (es, found) = some_of_is_some (lookup k g) (there ∙ h) in
        let same_events : es ≡ events_for k commits = ap or_empty (sym found) ∙ events in
        let same_result : reduce_groups reducer g ≡ r = ground arith in
        subst₂ (λ x y. IsSettled reducer k x y) same_events same_result
          (reduce_groups_lem g k es found)
    | inr (x, failed) ↦ absurd (ground arith)
  ]

  group_events-returns :
      (commits : List (Commit P)) (g : Dict (List (Event P)))
      → all has_events commits ≡ true
      → (h : Dict (List (Event P))) × (group_events g commits ≡ ok h)
  unfolding group_events
  group_events-returns [] g a = (g, refl)
  group_events-returns (c ∷ cs) g a = elim (Option-cases c.events) [
    | inl e ↦ absurd (ground arith)
    | inr (es, e) ↦
        let (h, grouped) =
          group_events-returns cs (push_events (text_of c.entity_id) es g) (ground arith) in
        (h, rw e grouped)
  ]

  -- If every commit has events, commitsToGroupByEntityId returns, and for every entity id of a
  -- commit either the reducer's result on the events of that entity, in the order of the commits,
  -- is among the current states, or the reducer gives nothing for them and the id is among the
  -- errors.
  pub commits_to_group-IsSettled :
      (commits : List (Commit P))
      → all has_events commits ≡ true
      → (r : Grouped D) × (commits_to_group_by_entity_id reducer commits ≡ ok r)
        × ((k : String)
            → any (of_entity k) commits ≡ true
            → IsSettled reducer k (events_for k commits) r)
  unfolding commits_to_group_by_entity_id
  commits_to_group-IsSettled commits a =
      let (g, grouped) = group_events-returns commits [] a in
      let returned : commits_to_group_by_entity_id reducer commits ≡ ok (reduce_groups reducer g) =
        rw (commits_to_group_by_entity_id, grouped) refl in
      (
        reduce_groups reducer g,
        returned,
        λ k h. settled_lem commits (reduce_groups reducer g) k returned h,
      )
