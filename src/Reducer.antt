-- ===== src/Reducer.antt =====
-- packages/fabric-cqrs/src/types/reducer.ts: the fold of a history of events into an entity, the
-- tracking of organizations and private data, and both for a list of commits.
pub mod Group
pub mod Stamping
pub mod Tracking
pub mod Compute
use fabric_es.Prelude.{
  ℕ, String, Bool, true, false, not, ◌&&◌, ◌==◌, Option, none, some, List, [], ◌∷◌, ◌++◌, foldl,
  Result, ok, throw, type_error, Dict, lookup, assign, is_some, truthy, truthy_num, text_of, same,
  any, select, length, ltb, leb, eqb, if◌then◌else◌, ◌>>=◌,
}
use fabric_es.Types.{Event, Commit, track_event}

-- An entity: its domain part, and the fields that the library adds to it.
pub record Entity (D : Type 0) : Type 0 where
  pub id : Option String
  pub domain : D
  pub creator : Option String
  pub created : Option ℕ
  pub ts : Option ℕ
  pub organization : Option (List (Option String))
  pub private_data : Option (Dict (List (Option String)))

-- What `trackingReducer` gives to `Object.assign`: an absent field is not assigned.
pub record Tracks : Type 0 where
  pub organization : List (Option String)
  pub private_data : Dict (List (Option String))

pub record Computed (D : Type 0) : Type 0 where
  pub state : Option (Entity D)
  pub reduced : Bool

abbrev pub Callback : Type 0 → Type 0 → Type 0
Callback P D = Option (Entity D) → Event P → Option (Entity D)

abbrev pub Reducer : Type 0 → Type 0 → Type 0
Reducer P D = List (Event P) → Option (Entity D)

module _ {P D : Type 0} where
  -- The three assignments after the call of the callback.
  unfoldable pub stamp : Event P → Entity D → Entity D
  stamp e n = record n {
    creator =
        if not (truthy n.creator) && truthy e.payload.creator then e.payload.creator else n.creator;
    created =
        if not (truthy_num n.created) && truthy_num e.payload.created
        then e.payload.created
        else n.created;
    ts = if truthy_num e.payload.ts then e.payload.ts else n.ts;
  }

  abbrev pub stamp_opt : Event P → Option (Entity D) → Option (Entity D)
  stamp_opt e none = none
  stamp_opt e (some n) = some (stamp e n)

  unfoldable pub reduce_step : Callback P D → Option (Entity D) → Event P → Option (Entity D)
  reduce_step callback entity e = stamp_opt e (callback entity e)

  unfoldable pub get_reducer : Callback P D → List (Event P) → Option (Entity D) → Option (Entity D)
  unfolding reduce_step stamp
  get_reducer callback history initial = foldl (reduce_step callback) initial history

abbrev pub includes : Option String → List (Option String) → Bool
includes m ms = any (same m) ms

abbrev pub or_empty {ℓ} : {A : Type ℓ} → Option (List A) → List A
or_empty none = []
or_empty (some xs) = xs

-- `if (!t[k]) t[k] = []; t[k].push(m)`
pub push_to : String → Option String → Dict (List (Option String)) → Dict (List (Option String))
push_to k m t = assign k (or_empty (lookup k t) ++ m ∷ []) t

abbrev pub no_tracks : Tracks
no_tracks = record { organization = []; private_data = [] }

module _ {D : Type 0} where
  -- `Object.assign(state, trackingReducer(commits))`
  pub assign_tracks : Tracks → Entity D → Entity D
  assign_tracks t n = record n {
    organization = if ltb 0 (length t.organization) then some t.organization else n.organization;
    private_data = if ltb 0 (length t.private_data) then some t.private_data else n.private_data;
  }

module _ {P : Type 0} where
  abbrev pub is_track : Event P → Bool
  is_track e = e.type == track_event

  -- `commit.events?.filter(…).length <= 0`
  abbrev pub no_track : Option (List (Event P)) → Bool
  no_track none = false
  no_track (some es) = leb (length (select is_track es)) 0

  pub track_step :
      Option String → Dict (List (Option String)) → Event P → Dict (List (Option String))
  track_step m t e = if is_track e then push_to (text_of e.payload.entity_name) m t else t

  abbrev pub events_of : Option (List (Event P)) → List (Event P)
  events_of none = []
  events_of (some es) = es

  pub track_commit : Tracks → Commit P → Tracks
  unfolding track_step push_to
  track_commit t c = record {
    organization =
        if no_track c.events && not (includes c.msp_id t.organization)
        then t.organization ++ c.msp_id ∷ []
        else t.organization;
    private_data = foldl (track_step c.msp_id) t.private_data (events_of c.events);
  }

  -- The loop of `trackingReducer`, before its result loses its empty fields.
  unfoldable pub tracking_reducer : List (Commit P) → Tracks
  unfolding track_commit
  tracking_reducer commits = foldl track_commit no_tracks commits

  -- A single commit with a single track event: the private entity came before its public one.
  pub is_placeholder : List (Commit P) → Bool
  is_placeholder (c ∷ []) = elim c.events [
    | none ↦ false
    | some es ↦ eqb (length (select is_track es)) 1
  ]
  is_placeholder _ = false

  -- The loop that collects the events; `events` of `undefined` throws.
  unfoldable pub collect : List (Commit P) → Result (List (Event P))
  collect [] = ok []
  collect (c ∷ cs) = elim c.events [
    | none ↦ throw type_error
    | some es ↦ do rest ← collect cs; ok (es ++ rest)
  ]

module _ {P D : Type 0} where
  pub finish : List (Commit P) → Option (Entity D) → Computed D
  unfolding assign_tracks is_placeholder tracking_reducer
  finish commits none =
      if is_placeholder commits
      then record { state = none; reduced = false }
      else record { state = none; reduced = true }
  finish commits (some n) = record {
    state = some (assign_tracks (tracking_reducer commits) n);
    reduced = true;
  }

  unfoldable pub compute_entity : List (Commit P) → Reducer P D → Result (Computed D)
  unfolding collect finish
  compute_entity commits reducer = do
    history ← collect commits
    ok (finish commits (reducer history))
