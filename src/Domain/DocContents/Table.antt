-- ===== src/Domain/DocContents/Table.antt =====
-- What the commands on contents make of them, as a table, and that the events of the handler fit it.
use fabric_es.Prelude.{
  String, ◌≡◌, refl, Bool, true, false, Option, none, some, arith, ok, truthy, Error, type_error,
  ◌&&◌, List, [], ◌∷◌, Bool-cases, Option-cases, inl, inr, if◌then◌else◌,
}
use fabric_es.Types.{Event}
use fabric_es.Reducer.{Entity, get_reducer}
use fabric_es.Domain.Handlers.{fresh, required_data_missing}
use fabric_es.Domain.Handlers.Effects.{Fits, get_reducer-plain, reduce-single}
use fabric_es.Domain.DocContents.{
  Content, DocContents, ContentsPayload, doc_contents_reducer, ContentsTarget, DocContentsCommand,
  create_doc_contents, define_doc_contents_content, created_contents, unless_mismatched,
  decide_content, contents_created, data_defined, file_defined, doc_contents_not_found,
  doc_contents_mismatched,
}

-- What a content becomes in an entity: data if it has a body, else a file.
abbrev pub kept : Content → Content
kept c =
    if truthy c.body
    then record { body = c.body; format = none; link = none }
    else record { body = none; format = c.format; link = c.link }

abbrev pub complete : Content → Bool
complete c = if truthy c.body then true else truthy c.format && truthy c.link

-- What an accepted command makes of the contents with its id, stated without events.
abbrev pub contents_after :
    DocContentsCommand → Option (Entity DocContents) → Option (Entity DocContents)
contents_after (create_doc_contents t none) s = s
contents_after (create_doc_contents t (some c)) s = some (
    fresh (some t.document_id) (record {
      document_id = some t.document_id;
      content = some (kept c);
      timestamp = t.timestamp;
    }))
contents_after (define_doc_contents_content t (some c)) (some n) =
    some (record n { domain = record n.domain { content = some (kept c) } })
contents_after _ s = s

abbrev pub contents_id : DocContentsCommand → String
contents_id (create_doc_contents t content) = t.document_id
contents_id (define_doc_contents_content t content) = t.document_id

-- The error for a new content over an old one.
abbrev pub clash : Content → Option Content → Option Error
clash c old =
    if complete c
    then elim old [
      | none ↦ some type_error
      | some o ↦
          if truthy (if truthy c.body then o.format else o.body)
          then some doc_contents_mismatched
          else none
    ]
    else some required_data_missing

-- The error of a command that is not accepted.
abbrev pub contents_refusal : DocContentsCommand → Option (Entity DocContents) → Option Error
contents_refusal (create_doc_contents t none) s = some required_data_missing
contents_refusal (create_doc_contents t (some c)) s =
    if complete c then none else some required_data_missing
contents_refusal (define_doc_contents_content t content) none = some doc_contents_not_found
contents_refusal (define_doc_contents_content t none) (some n) = some type_error
contents_refusal (define_doc_contents_content t (some c)) (some n) = clash c n.domain.content

pub created_contents-ok :
    (t : ContentsTarget) (c : Content) (s : Option (Entity DocContents))
    → complete c ≡ true
    → (es : List (Event ContentsPayload)) × (created_contents t (some c) ≡ ok es)
      × (get_reducer doc_contents_reducer es s ≡ contents_after (create_doc_contents t (some c)) s)
unfolding created_contents doc_contents_reducer
created_contents-ok t c s h = elim (Bool-cases (truthy c.body)) [
  | inl y ↦ (
    contents_created t ∷ data_defined t c ∷ [],
    rw y refl,
    rw y (rw get_reducer-plain (rw get_reducer-plain (unfold get_reducer in refl))),
  )
  | inr n ↦
      let f : (truthy c.format && truthy c.link) ≡ true = ground arith in
      (
        contents_created t ∷ file_defined t c ∷ [],
        rw (n, f) refl,
        rw n (rw get_reducer-plain (rw get_reducer-plain (unfold get_reducer in refl))),
      )
]

pub decide_content-Fits :
    (t : ContentsTarget) (c : Content)
    → Fits doc_contents_reducer doc_contents_not_found
        (decide_content t (some c))
        (contents_after (define_doc_contents_content t (some c)))
        (contents_refusal (define_doc_contents_content t (some c)))
unfolding decide_content unless_mismatched doc_contents_reducer
decide_content-Fits t c = record {
  absent = refl;
  refused = λ n e h. ground arith;
  accepted = λ n es h. elim (Bool-cases (truthy c.body)) [
    | inl y ↦ elim (Option-cases n.domain.content) [
      | inl m ↦ absurd (ground arith)
      | inr (old, m) ↦ elim (Bool-cases (truthy old.format)) [
        | inl z ↦ absurd (ground arith)
        | inr z ↦ (
          ground arith,
          rw y (reduce-single doc_contents_reducer (some n) _ _ _ es (rw (y, m, z) at h)),
        )
      ]
    ]
    | inr y ↦ elim (Bool-cases (truthy c.format && truthy c.link)) [
      | inr f ↦ absurd (ground arith)
      | inl f ↦ elim (Option-cases n.domain.content) [
        | inl m ↦ absurd (ground arith)
        | inr (old, m) ↦ elim (Bool-cases (truthy old.body)) [
          | inl z ↦ absurd (ground arith)
          | inr z ↦ (
            ground arith,
            rw y (reduce-single doc_contents_reducer (some n) _ _ _ es (rw (y, f, m, z) at h)),
          )
        ]
      ]
    ]
  ];
}

-- Contents that hold data, and contents that hold a file.
abbrev pub is_data : Option (Entity DocContents) → Bool
is_data none = false
is_data (some n) = elim n.domain.content [ none ↦ false | some c ↦ truthy c.body ]

abbrev pub is_file : Option (Entity DocContents) → Bool
is_file none = false
is_file (some n) = elim n.domain.content [ none ↦ false | some c ↦ truthy c.format ]

contents_after-kind :
    (t : ContentsTarget) (c : Content) (n : Entity DocContents)
    → clash c n.domain.content ≡ none
    → (is_data (some n) ≡ true
        → is_data (contents_after (define_doc_contents_content t (some c)) (some n)) ≡ true)
      × (is_file (some n) ≡ true
          → is_file (contents_after (define_doc_contents_content t (some c)) (some n)) ≡ true)
contents_after-kind t c n h = elim (Option-cases n.domain.content) [
  | inl m ↦ (λ d. ground arith, λ d. ground arith)
  | inr (old, m) ↦ (λ d. ground arith, λ d. ground arith)
]

-- When DefineDocContentsContent is accepted for existing contents, its events leave contents that
-- hold data with data, and contents that hold a file with a file.
pub decide_content-kind :
    (t : ContentsTarget) (content : Option Content) (n : Entity DocContents)
    (es : List (Event ContentsPayload))
    → decide_content t content n ≡ ok es
    → (is_data (some n) ≡ true → is_data (get_reducer doc_contents_reducer es (some n)) ≡ true)
      × (is_file (some n) ≡ true → is_file (get_reducer doc_contents_reducer es (some n)) ≡ true)
unfolding decide_content
decide_content-kind t none n es h = cc
decide_content-kind t (some c) n es h =
    let (accepted, after) = (decide_content-Fits t c).accepted n es h in
    rw after (contents_after-kind t c n accepted)
