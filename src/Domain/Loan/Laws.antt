-- ===== src/Domain/Loan/Laws.antt =====
-- What the loan commands do to the state that a repository reports.
use mathlib.Core.Bool.{false≢true}
use fabric_es.Prelude.Action.{Action}
use fabric_es.Prelude.{
  String, ◌≡◌, ◌∙◌, refl, Bool, true, false, Option, none, some, arith, throw, truthy, Error, ◌&&◌,
  Bool-cases, inl, inr, if◌then◌else◌,
}
use fabric_es.Types.{Commit}
use fabric_es.Reducer.{Entity, get_reducer}
use fabric_es.Repository.{Repo, IsRepo}
use fabric_es.Domain.Handlers.{
  reducer_of, state_of, fresh, update_existing, invalid_operation, required_data_missing,
}
use fabric_es.Domain.Handlers.Effects.{
  Fits, Accepts, create_lem, update_effect, update_refused, get_reducer-plain, reduce-single,
}
use fabric_es.Domain.Loan.{
  LoanStatus, loan_applied, loan_cancelled, loan_approved, loan_returned, loan_rejected,
  loan_expired, Loan, LoanPayload, loan_reducer, Target, LoanCommand, apply_loan, cancel_loan,
  approve_loan, return_loan, reject_loan, expire_loan, define_loan_reference,
  define_loan_description, define_loan_comment, target, decide_loan, applied_events, loan_not_found,
  loan_command_handler,
}

abbrev pub status_after : LoanCommand → LoanStatus
status_after (cancel_loan t) = loan_cancelled
status_after (approve_loan t) = loan_approved
status_after (return_loan t) = loan_returned
status_after (reject_loan t) = loan_rejected
status_after (expire_loan t) = loan_expired
status_after _ = loan_applied

-- What an accepted command makes of the loan with its id, stated without events.
abbrev pub result_of : LoanCommand → Option (Entity Loan) → Option (Entity Loan)
result_of (apply_loan t description reference comment) s = some (
    fresh (some t.loan_id) (record {
      loan_id = some t.loan_id;
      owner_id = t.user_id;
      description = description;
      reference = reference;
      status = some loan_applied;
      comment = if truthy comment then comment else none;
      timestamp = t.timestamp;
    }))
result_of _ none = none
result_of (define_loan_reference t reference) (some n) = some n
result_of (define_loan_description t description) (some n) =
    some (record n { domain = record n.domain { description = description } })
result_of (define_loan_comment t comment) (some n) =
    some (record n { domain = record n.domain { comment = comment } })
result_of c (some n) =
    some (record n { domain = record n.domain { status = some (status_after c) } })

-- The commands that read the loan first.
abbrev pub is_update : LoanCommand → Bool
is_update (apply_loan t description reference comment) = false
is_update (define_loan_reference t reference) = false
is_update c = true

-- The error of a command that is not accepted.
abbrev pub refusal : LoanCommand → Option (Entity Loan) → Option Error
refusal (apply_loan t description reference comment) s =
    if truthy reference && truthy description then none else some required_data_missing
refusal (define_loan_reference t reference) s = some invalid_operation
refusal c none = some loan_not_found
refusal (define_loan_description t description) (some n) =
    if truthy description then none else some required_data_missing
refusal c (some n) = none

applied_events_lem :
    (t : Target) (description reference comment : Option String) (s : Option (Entity Loan))
    → get_reducer loan_reducer (applied_events t description reference comment) s
      ≡ result_of (apply_loan t description reference comment) s
unfolding applied_events loan_reducer
applied_events_lem t description reference comment s = elim (Bool-cases (truthy comment)) [
  | inl y ↦ rw y (
      rw get_reducer-plain (
        rw get_reducer-plain
          (rw get_reducer-plain (rw get_reducer-plain (unfold get_reducer in refl)))))
  | inr n ↦ rw n (
      rw get_reducer-plain
        (rw get_reducer-plain (rw get_reducer-plain (unfold get_reducer in refl))))
]

decide_loan-Fits :
    (c : LoanCommand)
    → is_update c ≡ true
    → Fits loan_reducer loan_not_found (λ n. decide_loan c) (result_of c) (refusal c)
unfolding decide_loan loan_reducer
decide_loan-Fits (apply_loan t description reference comment) u = absurd (false≢true u)
decide_loan-Fits (define_loan_reference t reference) u = absurd (false≢true u)
decide_loan-Fits (define_loan_description t description) u = record {
  absent = refl;
  refused = λ n e h. ground arith;
  accepted = λ n es h. elim (Bool-cases (truthy description)) [
    | inl y ↦ (rw y refl, reduce-single loan_reducer (some n) _ _ _ es (rw y at h))
    | inr m ↦ absurd (ground arith)
  ];
}
decide_loan-Fits c u = record {
  absent = refl;
  refused = λ n e h. cc;
  accepted = λ n es h. (refl, reduce-single loan_reducer (some n) _ _ _ es h);
}

module _ {repo : Repo LoanPayload Loan} (laws : IsRepo repo (reducer_of loan_reducer)) where
  abbrev pub loan_of : repo.Db → String → Option (Entity Loan)
  loan_of db id = state_of loan_reducer laws db id

  abbrev update : LoanCommand → Action repo.Db (Commit LoanPayload)
  update c = update_existing repo (target c).loan_id loan_not_found (λ n. decide_loan c)

  module _ (db : repo.Db) (v : laws.Valid db) where
    -- Over any repository that satisfies the laws, in a valid and ready database, a loan command
    -- that the table does not refuse saves a commit, leaves the database valid, turns the loan with
    -- its id into what the table says, and changes no other loan.
    pub loan_command_handler-effect :
        (c : LoanCommand)
        → laws.Ready db
        → refusal c (loan_of db (target c).loan_id) ≡ none
        → Accepts loan_reducer laws
            (target c).loan_id
            (loan_command_handler repo c)
            db
            (result_of c (loan_of db (target c).loan_id))
    unfolding loan_command_handler
    loan_command_handler-effect (apply_loan t description reference comment) r h =
        let hr : truthy reference ≡ true = ground arith in
        let hd : truthy description ≡ true = ground arith in
        let es = applied_events t description reference comment in
        let (c, db', made, v', own, others) = create_lem loan_reducer laws t.loan_id es db v r in
        (
          c,
          db',
          rw (hr, hd) made,
          v',
          own ∙ applied_events_lem t description reference comment _,
          others,
        )
    loan_command_handler-effect (define_loan_reference t reference) r h = cc
    loan_command_handler-effect c r h =
        update_effect loan_reducer laws (target c).loan_id loan_not_found (λ n. decide_loan c)
          (result_of c) (refusal c) (decide_loan-Fits c refl) db v r h

    -- Over any repository that satisfies the laws, in a valid database, a loan command that the
    -- table refuses throws the error of the table and leaves the database as it is.
    pub loan_command_handler-refused :
        (c : LoanCommand) (e : Error)
        → refusal c (loan_of db (target c).loan_id) ≡ some e
        → loan_command_handler repo c db ≡ (throw e, db)
    unfolding loan_command_handler
    loan_command_handler-refused (apply_loan t description reference comment) e h = ground arith
    loan_command_handler-refused (define_loan_reference t reference) e h = cc
    loan_command_handler-refused c e h =
        update_refused loan_reducer laws (target c).loan_id loan_not_found (λ n. decide_loan c)
          (result_of c) (refusal c) (decide_loan-Fits c refl) db v e h
