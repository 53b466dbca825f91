-- ===== src/Reducer/Tracking.antt =====
-- What `trackingReducer` computes, stated without its accumulator.
use mathlib.Core.List.{append_assoc, append-nil}
use fabric_es.Prelude.{
  String, ◌≡◌, refl, ap, sym, Bool, true, false, not, ◌&&◌, ◌||◌, ◌==◌, eq_iff, Option, none,
  Bool-cases, inl, inr, some, List, [], ◌∷◌, ◌++◌, foldl, arith, Dict, lookup, lookup-assign,
  text_of, same, any, if◌then◌else◌,
}
use fabric_es.Types.{Event, Commit}
use fabric_es.Reducer.{
  Tracks, no_tracks, is_track, no_track, includes, or_empty, push_to, track_step, events_of,
  track_commit, tracking_reducer,
}

-- An empty list of organizations is not a field of the result.
abbrev pub nonempty {ℓ} : {A : Type ℓ} → List A → Option (List A)
nonempty [] = none
nonempty (x ∷ xs) = some (x ∷ xs)

-- No organization stands twice in the list.
abbrev pub distinct : List (Option String) → Bool
distinct [] = true
distinct (m ∷ ms) = not (includes m ms) && distinct ms

module _ {P : Type 0} where
  -- The organization once for each track event of the list that names the entity `k`.
  abbrev pub tracked_in : String → Option String → List (Event P) → List (Option String)
  tracked_in k m [] = []
  tracked_in k m (e ∷ es) =
      if is_track e && text_of e.payload.entity_name == k
      then m ∷ tracked_in k m es
      else tracked_in k m es

  abbrev pub tracked : String → List (Commit P) → List (Option String)
  tracked k [] = []
  tracked k (c ∷ cs) = tracked_in k c.msp_id (events_of c.events) ++ tracked k cs

  -- Some commit of organization `m` has no track event.
  abbrev pub contributes : Option String → Commit P → Bool
  contributes m c = no_track c.events && same m c.msp_id

or_empty-push_to :
    (k j : String) (m : Option String) (t : Dict (List (Option String)))
    → or_empty (lookup j (push_to k m t)) ≡ or_empty (lookup j t) ++ (if k == j then m ∷ [] else [])
unfolding push_to
or_empty-push_to k j m t = rw lookup-assign (elim (Bool-cases (k == j)) [
  | inl e ↦ rw (e, (eq_iff k j).0 e) refl
  | inr e ↦ rw e (sym (append-nil _))
])

module _ {P : Type 0} where
  or_empty-fold_track :
      (j : String) (m : Option String) (es : List (Event P)) (t : Dict (List (Option String)))
      → or_empty (lookup j (foldl (track_step m) t es)) ≡ or_empty (lookup j t) ++ tracked_in j m es
  unfolding track_step
  or_empty-fold_track j m [] t = sym (append-nil _)
  or_empty-fold_track j m (e ∷ es) t = elim (Bool-cases (is_track e)) [
    | inl y ↦ rw (or_empty-fold_track j m es, y, or_empty-push_to, append_assoc) (ground arith)
    | inr n ↦ rw (or_empty-fold_track j m es, n) refl
  ]

  or_empty-fold_commits :
      (j : String) (cs : List (Commit P)) (t : Tracks)
      → or_empty (lookup j (foldl track_commit t cs).private_data)
        ≡ or_empty (lookup j t.private_data) ++ tracked j cs
  unfolding track_commit
  or_empty-fold_commits j [] t = sym (append-nil _)
  or_empty-fold_commits j (c ∷ cs) t =
      rw (or_empty-fold_commits j cs (track_commit t c), or_empty-fold_track, append_assoc) refl

any-append {ℓ} :
    {A : Type ℓ} (p : A → Bool) (xs ys : List A) → any p (xs ++ ys) ≡ (any p xs || any p ys)
any-append p [] ys = refl
any-append p (x ∷ xs) ys = ground (arith, any-append p xs ys)

same_refl : (m : Option String) → same m m ≡ true
same_refl none = refl
same_refl (some a) = (eq_iff a a).1 refl

same→eq : (m n : Option String) → same m n ≡ true → m ≡ n
same→eq none none h = refl
same→eq (some a) (some b) h = ap some ((eq_iff a b).0 h)
same→eq none (some b) h = cc
same→eq (some a) none h = cc

same_comm : (m n : Option String) → same m n ≡ same n m
same_comm none none = refl
same_comm (some a) (some b) = ground (arith, eq_iff a b, eq_iff b a)
same_comm none (some b) = refl
same_comm (some a) none = refl

distinct-snoc :
    (m : Option String) (ms : List (Option String))
    → includes m ms ≡ false
    → distinct ms ≡ true
    → distinct (ms ++ m ∷ []) ≡ true
distinct-snoc m [] h d = refl
distinct-snoc m (n ∷ ms) h d =
    ground (arith, any-append (same n) ms (m ∷ []), same_comm m n, distinct-snoc m ms)

module _ {P : Type 0} where
  includes-track_commit :
      (m : Option String) (t : Tracks) (c : Commit P)
      → includes m (track_commit t c).organization ≡ (includes m t.organization || contributes m c)
  unfolding track_commit
  includes-track_commit m t c = elim (Bool-cases (same m c.msp_id)) [
    | inl e ↦ ground (
      arith,
      same→eq m c.msp_id e,
      same_refl m,
      any-append (same m) t.organization (c.msp_id ∷ []),
    )
    | inr e ↦ ground (arith, any-append (same m) t.organization (c.msp_id ∷ []))
  ]

  includes-fold_commits :
      (m : Option String) (cs : List (Commit P)) (t : Tracks)
      → includes m (foldl track_commit t cs).organization
        ≡ (includes m t.organization || any (contributes m) cs)
  includes-fold_commits m [] t = ground arith
  includes-fold_commits m (c ∷ cs) t =
      ground (arith, includes-fold_commits m cs (track_commit t c), includes-track_commit m t c)

  distinct-fold_commits :
      (cs : List (Commit P)) (t : Tracks)
      → distinct t.organization ≡ true
      → distinct (foldl track_commit t cs).organization ≡ true
  unfolding track_commit
  distinct-fold_commits [] t h = h
  distinct-fold_commits (c ∷ cs) t h =
      distinct-fold_commits cs (track_commit t c)
        (ground (arith, distinct-snoc c.msp_id t.organization))

  -- For any commits, the organizations that trackingReducer lists are exactly those of the commits
  -- with events of which none is a track event, and none is listed twice.
  pub tracking_reducer-organization :
      (commits : List (Commit P)) (m : Option String)
      → (includes m (tracking_reducer commits).organization ≡ any (contributes m) commits)
        × (distinct (tracking_reducer commits).organization ≡ true)
  unfolding tracking_reducer
  tracking_reducer-organization commits m =
      (includes-fold_commits m commits no_tracks, distinct-fold_commits commits no_tracks refl)

  -- For any commits and entity name, the list that trackingReducer keeps under the name has the
  -- organization of every track event for it, in order and once for each event.
  pub tracking_reducer-private_data :
      (commits : List (Commit P)) (k : String)
      → or_empty (lookup k (tracking_reducer commits).private_data) ≡ tracked k commits
  unfolding tracking_reducer lookup
  tracking_reducer-private_data commits k = or_empty-fold_commits k commits no_tracks
