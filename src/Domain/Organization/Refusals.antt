-- ===== src/Domain/Organization/Refusals.antt =====
-- Which organization commands throw, and that they leave the database as it is.
use fabric_es.Prelude.{
  throw, Error, Bool-cases, truthy, ℕ, String, ◌≡◌, refl, ap, Option, some, [], ◌∷◌, arith, ok,
  truthy, Option-cases, inl, inr,
}
use fabric_es.Types.{Event}
use fabric_es.Repository.{Repo, IsRepo}
use fabric_es.Domain.Handlers.{required_data_missing, reducer_of, entity_missing, update_existing}
use fabric_es.Domain.Handlers.Effects.{update_refused, update_existing_missing}
use fabric_es.Domain.Organization.{
  Organization, OrgPayload, org_reducer, OrgCommand, start_org, define_org_name, define_org_url,
  load_pubkey, shutdown_org, org_id, url_defined, pubkey_loaded, decide_name, start,
  org_command_handler,
}
use fabric_es.Domain.Organization.Table.{
  decide_name-Fits, org_after, org_refusal, missing_refusal, decide_name-Fits,
}
use fabric_es.Domain.Organization.Laws.{org_of}

module _ {repo : Repo OrgPayload Organization} (laws : IsRepo repo (reducer_of org_reducer))
    (db : repo.Db) (v : laws.Valid db) where
  start_refused :
      (id : String) (name url pubkey : Option String) (t : Option ℕ) (e : Error)
      → org_refusal (start_org id name url pubkey t) (org_of laws db id) ≡ some e
      → start repo id name url pubkey t db ≡ (throw e, db)
  unfolding start
  start_refused id name url pubkey t e h =
      let (k, read) = laws.found id db v in
      elim (Option-cases (org_of laws db id)) [
        | inr (n, s) ↦ absurd (ground arith)
        | inl s ↦ elim (Bool-cases (truthy name)) [
          | inl y ↦ absurd (ground arith)
          | inr n ↦
              let error : required_data_missing ≡ e = ground arith in
              rw (start, read) (rw s (rw n (ap (λ x. (throw x, db)) error)))
        ]
      ]

  -- A save of one event to an organization that does not exist.
  single_refused :
      (id : String) (ev : Event OrgPayload) (e : Error)
      → missing_refusal (org_of laws db id) ≡ some e
      → update_existing repo id entity_missing (λ n. ok (ev ∷ [])) db ≡ (throw e, db)
  single_refused id ev e h = elim (Option-cases (org_of laws db id)) [
    | inr (n, s) ↦ absurd (ground arith)
    | inl s ↦
        let error : entity_missing ≡ e = ground arith in
        rw (← error)
          (update_existing_missing org_reducer laws id entity_missing (λ n. ok (ev ∷ [])) db v s)
  ]

  -- Over any repository that satisfies the laws, in a valid database, an organization command that
  -- the table refuses throws the error of the table and leaves the database as it is.
  pub org_command_handler-refused :
      (k : OrgCommand) (e : Error)
      → org_refusal k (org_of laws db (org_id k)) ≡ some e
      → org_command_handler repo k db ≡ (throw e, db)
  unfolding org_command_handler
  org_command_handler-refused (start_org id name url pubkey t) e h =
      rw (start_refused id name url pubkey t e h) refl
  org_command_handler-refused (define_org_name id name t) e h =
      let k = define_org_name id name t in
      rw
        (update_refused org_reducer laws id entity_missing (decide_name id name t) (org_after k)
          (org_refusal k) (decide_name-Fits id name t) db v e h)
        refl
  org_command_handler-refused (define_org_url id url t) e h =
      rw (single_refused id (url_defined id url t) e (ground arith)) refl
  org_command_handler-refused (load_pubkey id pubkey t) e h =
      rw (single_refused id (pubkey_loaded id pubkey t) e (ground arith)) refl
  org_command_handler-refused (shutdown_org id t) e h = cc
