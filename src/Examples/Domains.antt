-- ===== src/Examples/Domains.antt =====
-- Documents, contents, users and organizations in the mock repository.
use fabric_es.Prelude.{
  ℕ, String, ◌≡◌, ◌≢◌, refl, Option, none, some, true, List, [], ◌∷◌, ◌++◌, Result, ok, eqb,
  if◌then◌else◌, lookup,
}
use fabric_es.Types.{Event, Commit}
use fabric_es.Reducer.{Entity, get_reducer}
use fabric_es.Repository.{IsRepo}
use fabric_es.Repository.Mock.{
  MockDb, mock_repository, mock_laws, create_commit, save_events, IsMockValid, mock_history,
  history-save_events,
}
use fabric_es.Domain.Handlers.{reducer_of, fresh}
use fabric_es.Domain.Handlers.Effects.{Accepts}
use fabric_es.Domain.Document.{document_reducer, DocumentTarget, DocumentCommand, create_document}
use fabric_es.Domain.DocContents.{
  Content, DocContents, doc_contents_reducer, ContentsTarget, create_doc_contents,
  doc_contents_command_handler, decide_content, data_defined,
}
use fabric_es.Domain.DocContents.Laws.{doc_contents_command_handler-effect}
use fabric_es.Domain.DocContents.Table.{contents_after, is_data, is_file, decide_content-kind}
use fabric_es.Domain.User.{UserPayload, user_reducer, create_user, user_events}
use fabric_es.Domain.Organization.{org_reducer, start_org, org_command_handler}
use fabric_es.Domain.Organization.Table.{org_after}
use fabric_es.Domain.Organization.Laws.{Resolves, org_command_handler-effect}

abbrev pub date : ℕ → String
date n = if eqb n 0 then "20200528133519841" else "20200528133519842"

abbrev pub decode : {P : Type 0} → String → Result (Option (List (Event P)))
decode s = ok none

abbrev pub empty : {P : Type 0} → MockDb P
empty = record { commits = []; now = 0 }

pub empty_fresh : {P : Type 0} → lookup {V = Commit P} (date 0) [] ≡ none
unfolding lookup
empty_fresh = refl

abbrev documents :
    IsRepo
      (mock_repository date decode "document" (reducer_of document_reducer))
      (reducer_of document_reducer)
documents = mock_laws date decode "document" (reducer_of document_reducer)

abbrev document : DocumentTarget
document = record { user_id = some "u1"; document_id = "d1"; timestamp = some 5 }

abbrev creation : DocumentCommand
creation = create_document document (some "l1") none (some "REF1")

abbrev contents_laws :
    IsRepo
      (mock_repository date decode "docContents" (reducer_of doc_contents_reducer))
      (reducer_of doc_contents_reducer)
contents_laws = mock_laws date decode "docContents" (reducer_of doc_contents_reducer)

abbrev contents : ContentsTarget
contents = record { user_id = some "u1"; document_id = "d1"; timestamp = some 5 }

abbrev body : Content
body = record { body = some "text"; format = none; link = none }

doc_contents_command_handler-effect_example :
    Accepts doc_contents_reducer contents_laws "d1"
      (doc_contents_command_handler
        (mock_repository date decode "docContents" (reducer_of doc_contents_reducer))
        (create_doc_contents contents (some body)))
      empty
      (contents_after (create_doc_contents contents (some body)) none)
doc_contents_command_handler-effect_example =
    doc_contents_command_handler-effect contents_laws empty refl
      (create_doc_contents contents (some body)) empty_fresh refl

abbrev old : Entity DocContents
old =
    fresh (some "d1") (record { document_id = some "d1"; content = some body; timestamp = some 4 })

decide_content-kind_example :
    (is_data (some old) ≡ true
      → is_data (get_reducer doc_contents_reducer (data_defined contents body ∷ []) (some old))
        ≡ true)
    × (is_file (some old) ≡ true
        → is_file (get_reducer doc_contents_reducer (data_defined contents body ∷ []) (some old))
          ≡ true)
decide_content-kind_example =
    decide_content-kind contents (some body) old (data_defined contents body ∷ [])
      (unfold decide_content in refl)

abbrev users :
    IsRepo (mock_repository date decode "user" (reducer_of user_reducer)) (reducer_of user_reducer)
users = mock_laws date decode "user" (reducer_of user_reducer)

abbrev orgs :
    IsRepo
      (mock_repository date decode "organization" (reducer_of org_reducer))
      (reducer_of org_reducer)
orgs = mock_laws date decode "organization" (reducer_of org_reducer)

org_command_handler-effect_example :
    Resolves orgs "Org1MSP"
      (org_command_handler
        (mock_repository date decode "organization" (reducer_of org_reducer))
        (start_org "Org1MSP" (some "One") none none (some 5)))
      empty
      (org_after (start_org "Org1MSP" (some "One") none none (some 5)) none)
unfolding get_reducer
org_command_handler-effect_example =
    org_command_handler-effect orgs empty refl empty_fresh
      (start_org "Org1MSP" (some "One") none none (some 5)) refl

abbrev ann : List (Event UserPayload)
ann = user_events (create_user "u1" (some "Ann") (some 5))

-- A table with the commit of one user.
abbrev table : MockDb UserPayload
table = record {
  commits = ("20200528133519841", create_commit date 0 "u1" "user" 0 ann none) ∷ [];
  now = 1;
}

history-save_events_example :
    (c : Commit UserPayload) × (db' : MockDb UserPayload) × (save_events date decode "user"
        (reducer_of user_reducer)
        "u1"
        1
        ann
        none
        table
      ≡ (ok c, db'))
    × IsMockValid db'
    × (mock_history date decode "user" (reducer_of user_reducer) db' "u1" ≡ ann ++ ann)
    × ((j : String)
        → "u1" ≢ j
        → mock_history date decode "user" (reducer_of user_reducer) db' j
          ≡ mock_history date decode "user" (reducer_of user_reducer) table j)
unfolding create_commit user_events
history-save_events_example =
    history-save_events date decode "user" (reducer_of user_reducer) "u1" 1 ann table refl
      (unfold lookup in refl)
