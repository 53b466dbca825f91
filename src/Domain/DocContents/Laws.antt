-- ===== src/Domain/DocContents/Laws.antt =====
-- What the commands on contents do to the state that a repository reports.
use fabric_es.Prelude.{throw, String, ◌≡◌, ◌∙◌, refl, true, Option, none, some, arith, Error}
use fabric_es.Reducer.{Entity}
use fabric_es.Repository.{Repo, IsRepo}
use fabric_es.Domain.Handlers.{reducer_of, state_of}
use fabric_es.Domain.Handlers.Effects.{update_refused, Fits, Accepts, create_lem, update_effect}
use fabric_es.Domain.DocContents.{
  Content, DocContents, ContentsPayload, doc_contents_reducer, ContentsTarget, DocContentsCommand,
  create_doc_contents, define_doc_contents_content, created_contents, decide_content,
  doc_contents_not_found, doc_contents_command_handler,
}
use fabric_es.Domain.DocContents.Table.{
  complete, contents_after, contents_id, contents_refusal, created_contents-ok, decide_content-Fits,
}

nothing-Fits :
    (t : ContentsTarget)
    → Fits doc_contents_reducer doc_contents_not_found
        (decide_content t none)
        (contents_after (define_doc_contents_content t none))
        (contents_refusal (define_doc_contents_content t none))
unfolding decide_content
nothing-Fits t = record {
  absent = refl;
  refused = λ n e h. ground arith;
  accepted = λ n es h. absurd (cc);
}

module _ {repo : Repo ContentsPayload DocContents}
    (laws : IsRepo repo (reducer_of doc_contents_reducer)) where
  abbrev pub contents_of : repo.Db → String → Option (Entity DocContents)
  contents_of db id = state_of doc_contents_reducer laws db id

  module _ (db : repo.Db) (v : laws.Valid db) where
    create_effect :
        (t : ContentsTarget) (c : Content)
        → laws.Ready db
        → complete c ≡ true
        → Accepts doc_contents_reducer laws t.document_id
            (doc_contents_command_handler repo (create_doc_contents t (some c)))
            db
            (contents_after (create_doc_contents t (some c)) (contents_of db t.document_id))
    unfolding doc_contents_command_handler
    create_effect t c r h =
        let (es, made, after) = created_contents-ok t c (contents_of db t.document_id) h in
        let (k, db', run, v', own, others) =
          create_lem doc_contents_reducer laws t.document_id es db v r in
        (k, db', rw (doc_contents_command_handler, made) run, v', own ∙ after, others)

    -- Over any repository that satisfies the laws, in a valid and ready database, a command on
    -- contents that the table does not refuse saves a commit, leaves the database valid, turns the
    -- contents with its id into what the table says, and changes no other contents.
    pub doc_contents_command_handler-effect :
        (k : DocContentsCommand)
        → laws.Ready db
        → contents_refusal k (contents_of db (contents_id k)) ≡ none
        → Accepts doc_contents_reducer laws
            (contents_id k)
            (doc_contents_command_handler repo k)
            db
            (contents_after k (contents_of db (contents_id k)))
    unfolding doc_contents_command_handler
    doc_contents_command_handler-effect (create_doc_contents t none) r h = cc
    doc_contents_command_handler-effect (create_doc_contents t (some c)) r h =
        create_effect t c r (ground arith)
    doc_contents_command_handler-effect (define_doc_contents_content t none) r h =
        absurd (ground arith)
    doc_contents_command_handler-effect (define_doc_contents_content t (some c)) r h =
        let k = define_doc_contents_content t (some c) in
        update_effect doc_contents_reducer laws t.document_id doc_contents_not_found
          (decide_content t (some c)) (contents_after k) (contents_refusal k)
          (decide_content-Fits t c) db v r h

    create_refused :
        (t : ContentsTarget) (content : Option Content) (e : Error)
        → contents_refusal (create_doc_contents t content) (contents_of db t.document_id) ≡ some e
        → doc_contents_command_handler repo (create_doc_contents t content) db ≡ (throw e, db)
    unfolding doc_contents_command_handler created_contents
    create_refused t none e h = ground arith
    create_refused t (some c) e h = ground arith

    -- Over any repository that satisfies the laws, in a valid database, a command on contents that
    -- the table refuses throws the error of the table and leaves the database as it is.
    pub doc_contents_command_handler-refused :
        (k : DocContentsCommand) (e : Error)
        → contents_refusal k (contents_of db (contents_id k)) ≡ some e
        → doc_contents_command_handler repo k db ≡ (throw e, db)
    unfolding doc_contents_command_handler
    doc_contents_command_handler-refused (create_doc_contents t content) e h =
        create_refused t content e h
    doc_contents_command_handler-refused (define_doc_contents_content t none) e h =
        let k = define_doc_contents_content t none in
        update_refused doc_contents_reducer laws t.document_id doc_contents_not_found
          (decide_content t none) (contents_after k) (contents_refusal k) (nothing-Fits t) db v e h
    doc_contents_command_handler-refused (define_doc_contents_content t (some c)) e h =
        let k = define_doc_contents_content t (some c) in
        update_refused doc_contents_reducer laws t.document_id doc_contents_not_found
          (decide_content t (some c)) (contents_after k) (contents_refusal k)
          (decide_content-Fits t c) db v e h
