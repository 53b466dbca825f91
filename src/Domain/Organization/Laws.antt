-- ===== src/Domain/Organization/Laws.antt =====
-- What the organization commands do to the state that a repository reports.
use fabric_es.Prelude.{
  ℕ, String, ◌≡◌, ◌≢◌, ◌∙◌, refl, ap, sym, true, Option, none, some, [], ◌∷◌, arith, ok, truthy,
  is_some, some_of_is_some, Option-cases, inl, inr,
}
use fabric_es.Prelude.Action.{Action, pure, ◌>>=◌}
use fabric_es.Types.{Event, Commit}
use fabric_es.Reducer.{Entity, get_reducer}
use fabric_es.Repository.{Repo, IsRepo}
use fabric_es.Domain.Handlers.{reducer_of, state_of, entity_missing, update_existing, append_events}
use fabric_es.Domain.Handlers.Effects.{
  Accepts, create_lem, append_lem, update_effect, reduce-single,
}
use fabric_es.Domain.Organization.{
  Organization, OrgPayload, org_reducer, OrgCommand, start_org, define_org_name, define_org_url,
  load_pubkey, shutdown_org, org_id, url_defined, pubkey_loaded, restart_events, start_events,
  decide_name, start, shutdown, downed, org_command_handler,
}
use fabric_es.Domain.Organization.Table.{
  org_after, org_refusal, missing_refusal, restart_events_lem, start_events_lem, decide_name-Fits,
  single-Fits,
}

module _ {repo : Repo OrgPayload Organization} (laws : IsRepo repo (reducer_of org_reducer)) where
  abbrev pub org_of : repo.Db → String → Option (Entity Organization)
  org_of db id = state_of org_reducer laws db id

  -- The call resolves, and the organization with the id is then `result`; no other has changed.
  abbrev pub Resolves :
      String
      → Action repo.Db (Option (Commit OrgPayload))
      → repo.Db
      → Option (Entity Organization)
      → Type 0
  Resolves id handler db result =
      (c : Option (Commit OrgPayload)) × (db' : repo.Db) × (handler db ≡ (ok c, db'))
      × laws.Valid db'
      × (org_of db' id ≡ result)
      × ((j : String) → id ≢ j → org_of db' j ≡ org_of db j)

  module _ (db : repo.Db) (v : laws.Valid db) (r : laws.Ready db) where
    start-existing :
        (id : String) (name url pubkey : Option String) (t : Option ℕ) (n : Entity Organization)
        → org_of db id ≡ some n
        → start repo id name url pubkey t db
          ≡ append_events repo id (restart_events id name url pubkey t n.domain) db
    unfolding start append_events
    start-existing id name url pubkey t n s =
        let (k, read) = laws.found id db v in rw (start, append_events, read) (rw s refl)

    start-new :
        (id : String) (name url pubkey : Option String) (t : Option ℕ)
        → org_of db id ≡ none
        → truthy name ≡ true
        → start repo id name url pubkey t db ≡ repo.create id (start_events id name url pubkey t) db
    unfolding start
    start-new id name url pubkey t s h =
        let (k, read) = laws.found id db v in rw (start, read) (rw s (rw h refl))

    start_effect :
        (id : String) (name url pubkey : Option String) (t : Option ℕ)
        → org_refusal (start_org id name url pubkey t) (org_of db id) ≡ none
        → Accepts org_reducer laws id
            (start repo id name url pubkey t)
            db
            (org_after (start_org id name url pubkey t) (org_of db id))
    start_effect id name url pubkey t h = elim (Option-cases (org_of db id)) [
      | inr (n, s) ↦
          let es = restart_events id name url pubkey t n.domain in
          let (c, db', run, v', own, others) = append_lem org_reducer laws id es db v r in
          (
            c,
            db',
            start-existing id name url pubkey t n s ∙ run,
            v',
            own
                ∙ ap (get_reducer org_reducer es) s
                ∙ restart_events_lem id name url pubkey t n
                ∙ ap (org_after (start_org id name url pubkey t)) (sym s),
            others,
          )
      | inl s ↦
          let named : truthy name ≡ true = ground arith in
          let es = start_events id name url pubkey t in
          let (c, db', run, v', own, others) = create_lem org_reducer laws id es db v r in
          (
            c,
            db',
            start-new id name url pubkey t s named ∙ run,
            v',
            own
                ∙ ap (get_reducer org_reducer es) s
                ∙ start_events_lem id name url pubkey t named
                ∙ ap (org_after (start_org id name url pubkey t)) (sym s),
            others,
          )
    ]

    define_name_effect :
        (id : String) (name : Option String) (t : Option ℕ)
        → org_refusal (define_org_name id name t) (org_of db id) ≡ none
        → Accepts org_reducer laws id
            (update_existing repo id entity_missing (decide_name id name t))
            db
            (org_after (define_org_name id name t) (org_of db id))
    define_name_effect id name t h =
        update_effect org_reducer laws id entity_missing (decide_name id name t)
          (org_after (define_org_name id name t)) (org_refusal (define_org_name id name t))
          (decide_name-Fits id name t) db v r h

    shutdown_effect :
        (id : String) (t : Option ℕ)
        → Resolves id (shutdown repo id t) db (org_after (shutdown_org id t) (org_of db id))
    unfolding shutdown append_events org_reducer
    shutdown_effect id t =
        let (k, read) = laws.found id db v in
        elim (Option-cases (org_of db id)) [
          | inl s ↦ (
            none,
            db,
            rw (shutdown, read) (rw s refl),
            v,
            s ∙ ap (org_after (shutdown_org id t)) (sym s),
            λ j ne. refl,
          )
          | inr (n, s) ↦
              let es = downed id t ∷ [] in
              let (c, db', saved, v', own, others) = append_lem org_reducer laws id es db v r in
              let saves : repo.save id k es db ≡ (ok c, db') = rw (append_events, read) at saved in
              (
                some c,
                db',
                rw (shutdown, read) (rw s (rw saves refl)),
                v',
                own
                    ∙ ap (get_reducer org_reducer es) s
                    ∙ reduce-single org_reducer (some n) _ _ _ es refl
                    ∙ ap (org_after (shutdown_org id t)) (sym s),
                others,
              )
        ]

    single_effect :
        (id : String) (e : Event OrgPayload)
        (result : Option (Entity Organization) → Option (Entity Organization))
        → ((n : Entity Organization) → get_reducer org_reducer (e ∷ []) (some n) ≡ result (some n))
        → is_some (org_of db id) ≡ true
        → Accepts org_reducer laws id
            (update_existing repo id entity_missing (λ n. ok (e ∷ [])))
            db
            (result (org_of db id))
    single_effect id e result h f =
        update_effect org_reducer laws id entity_missing (λ n. ok (e ∷ [])) result missing_refusal
          (single-Fits e result h) db v r (rw ((some_of_is_some (org_of db id) f).1) refl)

    lift_commit :
        (id : String) (m : Action repo.Db (Commit OrgPayload))
        (result : Option (Entity Organization))
        → Accepts org_reducer laws id m db result
        → Resolves id (m >>= λ c. pure (some c)) db result
    lift_commit id m result (c, db', run, v', own, others) =
        (some c, db', rw run refl, v', own, others)

    -- Over any repository that satisfies the laws, in a valid and ready database, an organization
    -- command that the table does not refuse resolves, leaves the database valid, turns the
    -- organization with its id into what the table says (for StartOrg, the same whether or not an
    -- event was left out because its value is the old one), and changes no other organization.
    pub org_command_handler-effect :
        (k : OrgCommand)
        → org_refusal k (org_of db (org_id k)) ≡ none
        → Resolves (org_id k) (org_command_handler repo k) db (org_after k (org_of db (org_id k)))
    unfolding org_command_handler org_reducer
    org_command_handler-effect (start_org id name url pubkey t) h =
        lift_commit id (start repo id name url pubkey t) _ (start_effect id name url pubkey t h)
    org_command_handler-effect (define_org_name id name t) h =
        lift_commit id (update_existing repo id entity_missing (decide_name id name t)) _
          (define_name_effect id name t h)
    org_command_handler-effect (define_org_url id url t) h =
        let k = define_org_url id url t in
        lift_commit id
          (update_existing repo id entity_missing (λ n. ok (url_defined id url t ∷ []))) _
          (single_effect id (url_defined id url t) (org_after k)
            (λ n. reduce-single org_reducer (some n) _ _ _ _ refl) (ground arith))
    org_command_handler-effect (load_pubkey id pubkey t) h =
        let k = load_pubkey id pubkey t in
        lift_commit id
          (update_existing repo id entity_missing (λ n. ok (pubkey_loaded id pubkey t ∷ []))) _
          (single_effect id (pubkey_loaded id pubkey t) (org_after k)
            (λ n. reduce-single org_reducer (some n) _ _ _ _ refl) (ground arith))
    org_command_handler-effect (shutdown_org id t) h = shutdown_effect id t
