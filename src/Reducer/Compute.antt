-- ===== src/Reducer/Compute.antt =====
-- `computeEntity` on every branch: what it throws, when it skips, what the entity carries.
use mathlib.Core.List.{append-nil, append_assoc}
use fabric_es.Prelude.{
  String, ◌≡◌, refl, sym, Bool, true, false, not, ◌&&◌, Option, none, some, Option-cases, inl, inr,
  List, [], ◌∷◌, ◌++◌, arith, ok, throw, type_error, lookup, is_some, any, all, length, select, ltb,
  eqb, if◌then◌else◌,
}
use fabric_es.Types.{Event, Commit}
use fabric_es.Reducer.{
  Entity, Reducer, is_track, includes, or_empty, events_of, tracking_reducer, is_placeholder,
  collect, assign_tracks, compute_entity,
}
use fabric_es.Reducer.Tracking.{
  contributes, tracked, distinct, tracking_reducer-organization, tracking_reducer-private_data,
}

module _ {P : Type 0} where
  -- The events of all commits, one after the other.
  abbrev pub history_of : List (Commit P) → List (Event P)
  history_of [] = []
  history_of (c ∷ cs) = events_of c.events ++ history_of cs

  pub history_of-append :
      (cs ds : List (Commit P)) → history_of (cs ++ ds) ≡ history_of cs ++ history_of ds
  history_of-append [] ds = refl
  history_of-append (c ∷ cs) ds =
      rw (history_of-append cs ds)
        (sym (append_assoc (events_of c.events) (history_of cs) (history_of ds)))

  abbrev pub has_events : Commit P → Bool
  has_events c = is_some c.events

  pub collect-history_of :
      (commits : List (Commit P))
      → collect commits
        ≡ (if all has_events commits then ok (history_of commits) else throw type_error)
  unfolding collect
  collect-history_of [] = refl
  collect-history_of (c ∷ cs) = ground (arith, collect-history_of cs)

  -- One commit in all, and one track event in all.
  abbrev pub only_track : List (Commit P) → Bool
  only_track cs = eqb (length cs) 1 && eqb (length (select is_track (history_of cs))) 1

  is_placeholder_lem :
      (cs : List (Commit P)) → all has_events cs ≡ true → is_placeholder cs ≡ only_track cs
  unfolding is_placeholder
  is_placeholder_lem [] h = refl
  is_placeholder_lem (c ∷ []) h = elim (Option-cases c.events) [
    | inl e ↦ ground arith
    | inr (es, e) ↦ rw (e, append-nil) refl
  ]
  is_placeholder_lem (c ∷ d ∷ cs) h = ground arith

-- The fields that `trackingReducer` adds describe the commits; all others are those of `n`.
pub record IsTracked {P D : Type 0} (commits : List (Commit P)) (n m : Entity D) : Type 0 where
  pub domain : m.domain ≡ n.domain
  pub id : m.id ≡ n.id
  pub creator : m.creator ≡ n.creator
  pub created : m.created ≡ n.created
  pub ts : m.ts ≡ n.ts
  pub organization :
      (o : Option String) → includes o (or_empty m.organization) ≡ any (contributes o) commits
  pub distinct_organization : distinct (or_empty m.organization) ≡ true
  pub private_data :
      (k : String) → or_empty (lookup k (or_empty m.private_data)) ≡ tracked k commits

or_empty-shown {ℓ} :
    {A : Type ℓ} (xs : List A) → or_empty (if ltb 0 (length xs) then some xs else none) ≡ xs
or_empty-shown [] = refl
or_empty-shown (x ∷ xs) = ground arith

module _ {P D : Type 0} (commits : List (Commit P)) (reducer : Reducer P D) where
  -- A commit without events makes the call throw, whatever the reducer.
  compute_entity-missing :
      all has_events commits ≡ false → compute_entity commits reducer ≡ throw type_error
  unfolding compute_entity
  compute_entity-missing h = rw (collect-history_of, h) refl

  -- If every commit has events and the reducer makes of all of them an entity without tracking
  -- fields, computeEntity returns that entity marked as reduced, its id, domain fields, creator and
  -- times unchanged, with the organizations of the commits without track events, each once, and the
  -- organizations of the track events under each entity name.
  pub compute_entity-IsTracked :
      (n : Entity D)
      → all has_events commits ≡ true
      → reducer (history_of commits) ≡ some n
      → n.organization ≡ none
      → n.private_data ≡ none
      → (m : Entity D) × (compute_entity commits reducer
          ≡ ok (record { state = some m; reduced = true }))
        × IsTracked commits n m
  unfolding compute_entity assign_tracks
  compute_entity-IsTracked n h r o p =
      let t = tracking_reducer commits in
      (
        assign_tracks t n,
        rw (collect-history_of, h, r) refl,
        record {
          domain = refl;
          id = refl;
          creator = refl;
          created = refl;
          ts = refl;
          organization = λ m. rw (o, or_empty-shown) (tracking_reducer-organization commits m).0;
          distinct_organization =
              rw (o, or_empty-shown) (tracking_reducer-organization commits none).1;
          private_data = λ k. rw (p, or_empty-shown) (tracking_reducer-private_data commits k);
        },
      )

  -- If every commit has events and the reducer gives nothing for them, computeEntity returns no
  -- entity, marked as not reduced exactly when there is one commit and it holds one track event.
  pub compute_entity-nothing :
      all has_events commits ≡ true
      → reducer (history_of commits) ≡ none
      → compute_entity commits reducer
        ≡ ok (record { state = none; reduced = not (only_track commits) })
  unfolding compute_entity
  compute_entity-nothing h r =
      rw (collect-history_of, h, r) (ground (arith, is_placeholder_lem commits h))
