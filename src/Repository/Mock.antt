-- ===== src/Repository/Mock.antt =====
-- packages/fabric-cqrs/src/repository/mockRepository.ts over an in-memory table of commits, and
-- store/utils/createCommit.ts. A commit id is the text of the current millisecond.
use mathlib.Core.List.{append-nil}
use text.Mathlib.TextPositions.{eq_refl}
use fabric_es.Prelude.{
  ℕ, String, Bool-cases, inl, inr, ==-ne, ◌≡◌, ◌≢◌, refl, ◌∙◌, Bool, true, ◌==◌, Option, none, some,
  List, [], ◌∷◌, ◌++◌, Result, ok, throw, Dict, lookup, assign, assign-new, values, select,
  select-append, length, arith, same, truthy, text_of, new_error, all, all-append, values-append,
  if◌then◌else◌, ◌>>=◌,
}
use fabric_es.Prelude.Action.{Action}
use fabric_es.Types.{Event, Commit}
use fabric_es.Reducer.{Reducer, collect}
use fabric_es.Reducer.Compute.{history_of, has_events, collect-history_of, history_of-append}
use fabric_es.Repository.{Repo, Found, IsRepo}

pub record MockDb (P : Type 0) : Type 0 where
  pub commits : Dict (Commit P)
  pub now : ℕ

module _ {P : Type 0} where
  -- `date` is the text of `new Date(now).toISOString()` without what is no digit.
  unfoldable pub create_commit :
      (ℕ → String) → ℕ → String → String → ℕ → List (Event P) → Option String → Commit P
  create_commit date now id entity_name version events signed_request = record {
    id = some id;
    entity_name = some entity_name;
    version = some version;
    commit_id = some (date now);
    entity_id = some id;
    msp_id = none;
    events = some events;
    signed_request = signed_request;
  }

  -- `omit(commit, 'events', 'signedRequest')`
  abbrev pub omit_events : Commit P → Commit P
  omit_events c = record c { events = none; signed_request = none }

  abbrev pub entity_is : String → Commit P → Bool
  entity_is id c = same c.entity_id (some id)

  pub matched : String → MockDb P → List (Commit P)
  matched id db = select (entity_is id) (values db.commits)

-- `decode` is `DidJWT.decodeJWT` followed by the checks on `payload.events`: a third-party package.
module _ {P D : Type 0} (date : ℕ → String) (decode : String → Result (Option (List (Event P))))
    (entity_name : String) (reducer : Reducer P D) where
  -- The events to save: those of the signed request, if there is one.
  pub chosen_events : List (Event P) → Option String → Result (List (Event P))
  chosen_events es signed_request =
      if truthy signed_request
      then (do
        decoded ← decode (text_of signed_request)
        elim decoded [ none ↦ throw (new_error "fail to parse events") | some ds ↦ ok ds ])
      else ok es

  unfoldable pub save_events :
      String → ℕ → List (Event P) → Option String → Action (MockDb P) (Commit P)
  unfolding create_commit chosen_events assign
  save_events id version es signed_request db = elim (chosen_events es signed_request) [
    | throw e ↦ (throw e, db)
    | ok chosen ↦
        let signature = if truthy signed_request then signed_request else some "" in
        let c = create_commit date db.now id entity_name version chosen signature in
        (ok (omit_events c), record db { commits = assign (date db.now) c db.commits })
  ]

  unfoldable pub get_by_id : String → Action (MockDb P) (Found D)
  unfolding matched collect
  get_by_id id db = elim (collect (matched id db)) [
    | throw e ↦ (throw e, db)
    | ok es ↦
        (ok (record { current_state = reducer es; version = some (length (matched id db)) }), db)
  ]

  abbrev pub mock_repository : Repo P D
  mock_repository = record {
    Db = MockDb P;
    create = λ id es. save_events id 0 es none;
    get_by_id = get_by_id;
    save = λ id n es. save_events id n es none;
  }

-- Every commit of the table has events; the id of a commit made now is not taken.
abbrev pub IsMockValid : {P : Type 0} → MockDb P → Type 0
IsMockValid db = all has_events (values db.commits) ≡ true

abbrev pub IsFresh : {P : Type 0} → (ℕ → String) → MockDb P → Type 0
IsFresh date db = lookup (date db.now) db.commits ≡ none

module _ {P : Type 0} where
  all-select :
      (p q : Commit P → Bool) (cs : List (Commit P)) → all p cs ≡ true → all p (select q cs) ≡ true
  all-select p q [] h = refl
  all-select p q (c ∷ cs) h = ground (arith, all-select p q cs)

  -- A commit under a new key, seen from one entity.
  history-assign :
      (k id j : String) (c : Commit P) (es : List (Event P)) (d : Dict (Commit P))
      → lookup k d ≡ none
      → c.entity_id ≡ some id
      → c.events ≡ some es
      → history_of (select (entity_is j) (values (assign k c d)))
        ≡ history_of (select (entity_is j) (values d)) ++ (if id == j then es else [])
  history-assign k id j c es d f i e =
      rw (assign-new k c d f, values-append, select-append, history_of-append, i)
        (elim (Bool-cases (id == j)) [ inl y ↦ rw (y, e, append-nil) refl | inr n ↦ rw n refl ])

module _ {P D : Type 0} (date : ℕ → String) (decode : String → Result (Option (List (Event P))))
    (entity_name : String) (reducer : Reducer P D) where
  abbrev pub mock_history : MockDb P → String → List (Event P)
  mock_history db id = history_of (select (entity_is id) (values db.commits))

  -- In a valid table, the current state is the reduction of all events of the entity, and the
  -- version is the number of its commits.
  pub get_by_id-history :
      (id : String) (db : MockDb P)
      → IsMockValid db
      → get_by_id date decode entity_name reducer id db ≡ (
        ok (record {
          current_state = reducer (mock_history db id);
          version = some (length (select (entity_is id) (values db.commits)));
        }),
        db,
      )
  unfolding get_by_id
  get_by_id-history id db v = ground (
    arith,
    collect-history_of (select (entity_is id) (values db.commits)),
    all-select has_events (entity_is id) (values db.commits) v,
  )

  -- In a valid table, a save without a signed request, at a millisecond at which no commit was
  -- made, returns a commit, leaves the table valid, appends the events to the history of its entity
  -- and changes no other history.
  pub history-save_events :
      (id : String) (n : ℕ) (es : List (Event P)) (db : MockDb P)
      → IsMockValid db
      → IsFresh date db
      → (c : Commit P) × (db' : MockDb P) × (save_events date decode entity_name reducer id n es
            none db
          ≡ (ok c, db'))
        × IsMockValid db'
        × (mock_history db' id ≡ mock_history db id ++ es)
        × ((j : String) → id ≢ j → mock_history db' j ≡ mock_history db j)
  unfolding save_events
  history-save_events id n es db v f =
      let c = create_commit date db.now id entity_name n es (some "") in
      let h = λ (j : String). history-assign (date db.now) id j c es db.commits f refl refl in
      (
        omit_events c,
        record db { commits = assign (date db.now) c db.commits },
        refl,
        rw (assign-new (date db.now) c db.commits f, values-append, all-append, v) refl,
        h id ∙ rw (eq_refl id) refl,
        λ j ne. h j ∙ rw (==-ne id j ne) (append-nil _),
      )

  -- The laws that handlers rely on, filled by this repository.
  abbrev pub mock_laws : IsRepo (mock_repository date decode entity_name reducer) reducer
  mock_laws = record {
    history = mock_history;
    Valid = IsMockValid;
    Ready = IsFresh date;
    found =
        λ id db v. (length (select (entity_is id) (values db.commits)), get_by_id-history id db v);
    created = λ id es db v f. history-save_events id 0 es db v f;
    saved = λ id n es db v f. history-save_events id n es db v f;
  }
