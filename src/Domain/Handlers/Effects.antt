-- ===== src/Domain/Handlers/Effects.antt =====
-- The effects of a handler of the shared shape, for any repository that satisfies the laws.
use mathlib.Core.List.{foldl-append}
use fabric_es.Prelude.{
  String, ◌≡◌, ◌≢◌, refl, ◌∙◌, ap, sym, Option, none, some, List, [], ◌∷◌, foldl, Result, ok, throw,
  Error, Option-cases, inl, inr, arith, ok-injective, Result-cases,
}
use fabric_es.Prelude.Action.{Action}
use fabric_es.Types.{Event, Commit, Lifecycle}
use fabric_es.Reducer.{Entity, Callback, get_reducer, reduce_step, stamp}
use fabric_es.Repository.{Repo, IsRepo}
use fabric_es.Domain.Handlers.{plain, reducer_of, state_of, update_existing, append_events}

module _ {P D : Type 0} {repo : Repo P D} (callback : Callback P D)
    (laws : IsRepo repo (reducer_of callback)) where
  -- Every way that the shape can end, with the state that it leaves.
  pub update_existing_lem :
      (id : String) (missing : Error) (decide : Entity D → Result (List (Event P))) (db : repo.Db)
      (n : Entity D) (es : List (Event P))
      → laws.Valid db
      → laws.Ready db
      → state_of callback laws db id ≡ some n
      → decide n ≡ ok es
      → (c : Commit P) × (db' : repo.Db) × (update_existing repo id missing decide db ≡ (ok c, db'))
        × laws.Valid db'
        × (state_of callback laws db' id ≡ get_reducer callback es (some n))
        × ((j : String) → id ≢ j → state_of callback laws db' j ≡ state_of callback laws db j)
  unfolding update_existing get_reducer
  update_existing_lem id missing decide db n es v r s d =
      let (k, read) = laws.found id db v in
      let (c, db', saved, v', own, others) = laws.saved id k es db v r in
      (
        c,
        db',
        rw (read, update_existing) (rw s (rw d saved)),
        v',
        rw (own, foldl-append, s) refl,
        λ j ne. rw (others j ne) refl,
      )

  pub update_existing_missing :
      (id : String) (missing : Error) (decide : Entity D → Result (List (Event P))) (db : repo.Db)
      → laws.Valid db
      → state_of callback laws db id ≡ none
      → update_existing repo id missing decide db ≡ (throw missing, db)
  unfolding update_existing
  update_existing_missing id missing decide db v s =
      let (k, read) = laws.found id db v in rw (read, update_existing) (rw s refl)

  pub update_existing_refused :
      (id : String) (missing e : Error) (decide : Entity D → Result (List (Event P))) (db : repo.Db)
      (n : Entity D)
      → laws.Valid db
      → state_of callback laws db id ≡ some n
      → decide n ≡ throw e
      → update_existing repo id missing decide db ≡ (throw e, db)
  unfolding update_existing
  update_existing_refused id missing e decide db n v s d =
      let (k, read) = laws.found id db v in rw (read, update_existing) (rw s (rw d refl))

-- An event as a handler makes it carries none of the library's fields.
module _ {P D : Type 0} where
  pub stamp-plain :
      (type : String) (l : Option Lifecycle) (body : P) (n : Entity D)
      → stamp (plain type l body) n ≡ n
  unfolding stamp
  stamp-plain type l body n = ground arith

  pub reduce_step-plain :
      (callback : Callback P D) (s : Option (Entity D)) (type : String) (l : Option Lifecycle)
      (body : P)
      → reduce_step callback s (plain type l body) ≡ callback s (plain type l body)
  unfolding reduce_step
  reduce_step-plain callback s type l body = elim (Option-cases (callback s (plain type l body))) [
    | inl e ↦ rw e refl
    | inr (n, e) ↦ rw (e, stamp-plain) refl
  ]

  pub get_reducer-plain :
      (callback : Callback P D) (s : Option (Entity D)) (type : String) (l : Option Lifecycle)
      (body : P) (es : List (Event P))
      → get_reducer callback (plain type l body ∷ es) s
        ≡ get_reducer callback es (callback s (plain type l body))
  unfolding get_reducer
  get_reducer-plain callback s type l body es =
      ap (λ (r : Option (Entity D)). foldl (reduce_step callback) r es)
        (reduce_step-plain callback s type l body)

  pub reduce-single :
      (callback : Callback P D) (s : Option (Entity D)) (type : String) (l : Option Lifecycle)
      (body : P) (es : List (Event P))
      → ok (plain type l body ∷ []) ≡ ok es
      → get_reducer callback es s ≡ callback s (plain type l body)
  reduce-single callback s type l body es h =
      rw (← ok-injective h) (rw get_reducer-plain (unfold get_reducer in refl))

-- The table fits what is decided: `refusal` names what is thrown, `result` what is saved.
pub record Fits {P D : Type 0} (callback : Callback P D) (missing : Error)
    (decide : Entity D → Result (List (Event P))) (result : Option (Entity D) → Option (Entity D))
    (refusal : Option (Entity D) → Option Error) : Type 0 where
  pub absent : refusal none ≡ some missing
  pub refused : (n : Entity D) (e : Error) → decide n ≡ throw e → refusal (some n) ≡ some e
  pub accepted :
      (n : Entity D) (es : List (Event P))
      → decide n ≡ ok es
      → (refusal (some n) ≡ none) × (get_reducer callback es (some n) ≡ result (some n))

-- A command that reads first is accepted, with this result, or refused, with this error.
module _ {P D : Type 0} {repo : Repo P D} (callback : Callback P D)
    (laws : IsRepo repo (reducer_of callback)) (id : String) where
  -- The call resolves, and the entity with the id is then `result`; no other has changed.
  abbrev pub Accepts : Action repo.Db (Commit P) → repo.Db → Option (Entity D) → Type 0
  Accepts handler db result =
      (c : Commit P) × (db' : repo.Db) × (handler db ≡ (ok c, db'))
      × laws.Valid db'
      × (state_of callback laws db' id ≡ result)
      × ((j : String) → id ≢ j → state_of callback laws db' j ≡ state_of callback laws db j)

  pub create_lem :
      (es : List (Event P)) (db : repo.Db)
      → laws.Valid db
      → laws.Ready db
      → Accepts (repo.create id es) db (get_reducer callback es (state_of callback laws db id))
  create_lem es db v r =
      let (c, db', made, v', own, others) = laws.created id es db v r in
      (
        c,
        db',
        made,
        v',
        rw own (
            unfold get_reducer in foldl-append (reduce_step callback) none (laws.history db id) es),
        λ j ne. rw (others j ne) refl,
      )

  -- A save without a check on the entity.
  pub append_lem :
      (es : List (Event P)) (db : repo.Db)
      → laws.Valid db
      → laws.Ready db
      → Accepts
          (append_events repo id es)
          db
          (get_reducer callback es (state_of callback laws db id))
  unfolding append_events
  append_lem es db v r =
      let (n, read) = laws.found id db v in
      let (c, db', saved, v', own, others) = laws.saved id n es db v r in
      (
        c,
        db',
        rw (append_events, read) saved,
        v',
        rw own (
            unfold get_reducer in foldl-append (reduce_step callback) none (laws.history db id) es),
        λ j ne. rw (others j ne) refl,
      )

  module _ (missing : Error) (decide : Entity D → Result (List (Event P)))
      (result : Option (Entity D) → Option (Entity D)) (refusal : Option (Entity D) → Option Error)
      (fits : Fits callback missing decide result refusal) (db : repo.Db) (v : laws.Valid db) where
    abbrev now : Option (Entity D)
    now = state_of callback laws db id

    pub update_effect :
        laws.Ready db
        → refusal now ≡ none
        → Accepts (update_existing repo id missing decide) db (result now)
    update_effect r h = elim (Option-cases now) [
      | inl s ↦ absurd (ground (arith, fits.absent))
      | inr (n, s) ↦ elim (Result-cases (decide n)) [
        | inr (e, d) ↦ absurd (ground (arith, fits.refused n e d))
        | inl (es, d) ↦
            let (c, db', run, v', own, others) =
              update_existing_lem callback laws id missing decide db n es v r s d in
            (c, db', run, v', own ∙ (fits.accepted n es d).1 ∙ ap result (sym s), others)
      ]
    ]

    pub update_refused :
        (e : Error)
        → refusal now ≡ some e
        → update_existing repo id missing decide db ≡ (throw e, db)
    update_refused e h = elim (Option-cases now) [
      | inl s ↦
          let same_error : missing ≡ e = ground (arith, fits.absent) in
          rw (← same_error) (update_existing_missing callback laws id missing decide db v s)
      | inr (n, s) ↦ elim (Result-cases (decide n)) [
        | inr (x, d) ↦
            let same_error : x ≡ e = ground (arith, fits.refused n x d) in
            rw (← same_error) (update_existing_refused callback laws id missing x decide db n v s d)
        | inl (es, d) ↦ absurd (ground (arith, (fits.accepted n es d).0))
      ]
    ]
