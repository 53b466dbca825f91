-- ===== src/Domain/Document/Laws.antt =====
-- What the document commands do to the state that a repository reports.
use mathlib.Core.Bool.{false≢true}
use fabric_es.Prelude.{
  String, ◌≡◌, ◌∙◌, refl, Bool, true, false, Option, none, some, arith, throw, truthy, Error,
  Bool-cases, inl, inr, if◌then◌else◌,
}
use fabric_es.Reducer.{Entity, get_reducer}
use fabric_es.Repository.{Repo, IsRepo}
use fabric_es.Domain.Handlers.{
  reducer_of, state_of, fresh, invalid_operation, required_data_missing,
}
use fabric_es.Domain.Handlers.Effects.{
  Fits, Accepts, create_lem, update_effect, update_refused, get_reducer-plain, reduce-single,
}
use fabric_es.Domain.Document.{
  document_created, document_deleted, document_restricted, Document, DocumentPayload,
  document_reducer, DocumentTarget, DocumentCommand, create_document, delete_document,
  restrict_document_access, define_document_reference, define_document_loan_id,
  define_document_title, document_target, decide_document, created_events, document_not_found,
  document_command_handler,
}

-- What an accepted command makes of the document with its id, stated without events.
abbrev pub document_after : DocumentCommand → Option (Entity Document) → Option (Entity Document)
document_after (create_document t loan_id title reference) s = some (
    fresh (some t.document_id) (record {
      document_id = some t.document_id;
      owner_id = t.user_id;
      loan_id = if truthy loan_id then loan_id else none;
      title = if truthy title then title else none;
      reference = reference;
      status = some document_created;
      timestamp = t.timestamp;
    }))
document_after _ none = none
document_after (delete_document t) (some n) =
    some (record n { domain = record n.domain { status = some document_deleted } })
document_after (restrict_document_access t) (some n) =
    some (record n { domain = record n.domain { status = some document_restricted } })
document_after (define_document_loan_id t loan_id) (some n) =
    some (record n { domain = record n.domain { loan_id = loan_id } })
document_after (define_document_title t title) (some n) =
    some (record n { domain = record n.domain { title = title } })
document_after _ (some n) = some n

abbrev reads_document : DocumentCommand → Bool
reads_document (create_document t loan_id title reference) = false
reads_document (define_document_reference t reference) = false
reads_document c = true

-- The error of a command that is not accepted.
abbrev pub document_refusal : DocumentCommand → Option (Entity Document) → Option Error
document_refusal (create_document t loan_id title reference) s =
    if truthy reference then none else some required_data_missing
document_refusal (define_document_reference t reference) s = some invalid_operation
document_refusal c none = some document_not_found
document_refusal c (some n) = none

created_events_lem :
    (t : DocumentTarget) (loan_id title reference : Option String) (s : Option (Entity Document))
    → get_reducer document_reducer (created_events t loan_id title reference) s
      ≡ document_after (create_document t loan_id title reference) s
unfolding created_events document_reducer
created_events_lem t loan_id title reference s = elim (Bool-cases (truthy loan_id)) [
  | inl y ↦ elim (Bool-cases (truthy title)) [
    | inl z ↦
        rw (y, z)
          (rw get_reducer-plain (
            rw get_reducer-plain
              (rw get_reducer-plain (rw get_reducer-plain (unfold get_reducer in refl)))))
    | inr m ↦
        rw (y, m)
          (rw get_reducer-plain
            (rw get_reducer-plain (rw get_reducer-plain (unfold get_reducer in refl))))
  ]
  | inr n ↦ elim (Bool-cases (truthy title)) [
    | inl z ↦
        rw (n, z)
          (rw get_reducer-plain
            (rw get_reducer-plain (rw get_reducer-plain (unfold get_reducer in refl))))
    | inr m ↦ rw (n, m) (rw get_reducer-plain (rw get_reducer-plain (unfold get_reducer in refl)))
  ]
]

decide_document-Fits :
    (c : DocumentCommand)
    → reads_document c ≡ true
    → Fits document_reducer document_not_found
        (λ n. decide_document c)
        (document_after c)
        (document_refusal c)
unfolding decide_document document_reducer
decide_document-Fits (create_document t loan_id title reference) u = absurd (false≢true u)
decide_document-Fits (define_document_reference t reference) u = absurd (false≢true u)
decide_document-Fits c u = record {
  absent = refl;
  refused = λ n e h. cc;
  accepted = λ n es h. (refl, reduce-single document_reducer (some n) _ _ _ es h);
}

module _ {repo : Repo DocumentPayload Document}
    (laws : IsRepo repo (reducer_of document_reducer)) where
  abbrev pub document_of : repo.Db → String → Option (Entity Document)
  document_of db id = state_of document_reducer laws db id

  module _ (db : repo.Db) (v : laws.Valid db) where
    -- Over any repository that satisfies the laws, in a valid and ready database, a document
    -- command that the table does not refuse saves a commit, leaves the database valid, turns the
    -- document with its id into what the table says, and changes no other document.
    pub document_command_handler-effect :
        (c : DocumentCommand)
        → laws.Ready db
        → document_refusal c (document_of db (document_target c).document_id) ≡ none
        → Accepts document_reducer laws
            (document_target c).document_id
            (document_command_handler repo c)
            db
            (document_after c (document_of db (document_target c).document_id))
    unfolding document_command_handler
    document_command_handler-effect (create_document t loan_id title reference) r h =
        let hr : truthy reference ≡ true = ground arith in
        let es = created_events t loan_id title reference in
        let (c, db', made, v', own, others) =
          create_lem document_reducer laws t.document_id es db v r in
        (c, db', rw hr made, v', own ∙ created_events_lem t loan_id title reference _, others)
    document_command_handler-effect (define_document_reference t reference) r h = cc
    document_command_handler-effect c r h =
        update_effect document_reducer laws (document_target c).document_id document_not_found
          (λ n. decide_document c) (document_after c) (document_refusal c)
          (decide_document-Fits c refl) db v r h

    -- Over any repository that satisfies the laws, in a valid database, a document command that the
    -- table refuses throws the error of the table and leaves the database as it is.
    pub document_command_handler-refused :
        (c : DocumentCommand) (e : Error)
        → document_refusal c (document_of db (document_target c).document_id) ≡ some e
        → document_command_handler repo c db ≡ (throw e, db)
    unfolding document_command_handler
    document_command_handler-refused (create_document t loan_id title reference) e h = ground arith
    document_command_handler-refused (define_document_reference t reference) e h = cc
    document_command_handler-refused c e h =
        update_refused document_reducer laws (document_target c).document_id document_not_found
          (λ n. decide_document c) (document_after c) (document_refusal c)
          (decide_document-Fits c refl) db v e h
