-- ===== src/Domain/Organization/Table.antt =====
-- What the events of an organization command make of an organization.
use text.Mathlib.TextEquality.{eq_iff}
use fabric_es.Prelude.{
  ℕ, String, ◌≡◌, ◌∙◌, refl, ap, ok-injective, Bool, true, false, not, ◌&&◌, Option, none, some,
  List, [], ◌∷◌, ◌++◌, arith, ok, truthy, same, Error, Bool-cases, inl, inr, if◌then◌else◌,
}
use fabric_es.Types.{Event}
use fabric_es.Reducer.{Entity, get_reducer}
use fabric_es.Domain.Handlers.{spread, required_data_missing, entity_missing}
use fabric_es.Domain.Handlers.Effects.{Fits, get_reducer-plain, reduce-single}
use fabric_es.Domain.Organization.{
  Organization, OrgPayload, no_org, up, down, org_reducer, OrgCommand, start_org, define_org_name,
  define_org_url, load_pubkey, shutdown_org, optionally, name_defined, url_defined, pubkey_loaded,
  restart_events, start_events, decide_name,
}

-- A value that is given replaces the old one.
abbrev pub pick : Option String → Option String → Option String
pick new old = if truthy new then new else old

-- What an accepted command makes of the organization with its id, stated without events.
abbrev pub org_after : OrgCommand → Option (Entity Organization) → Option (Entity Organization)
org_after (start_org id name url pubkey t) s =
    let n = spread no_org s in
    some (record n {
      id = some id;
      domain = record {
        msp_id = some id;
        name = pick name n.domain.name;
        url = pick url n.domain.url;
        pubkey = pick pubkey n.domain.pubkey;
        status = some up;
        timestamp = t;
      };
    })
org_after _ none = none
org_after (define_org_name id name t) (some n) =
    some (record n { domain = record n.domain { name = name } })
org_after (define_org_url id url t) (some n) =
    some (record n { domain = record n.domain { url = url } })
org_after (load_pubkey id pubkey t) (some n) =
    some (record n { domain = record n.domain { pubkey = pubkey } })
org_after (shutdown_org id t) (some n) =
    some (record n { domain = record n.domain { status = some down } })

-- The error of a command that is not accepted.
abbrev pub org_refusal : OrgCommand → Option (Entity Organization) → Option Error
org_refusal (start_org id name url pubkey t) none =
    if truthy name then none else some required_data_missing
org_refusal (start_org id name url pubkey t) (some n) = none
org_refusal (shutdown_org id t) s = none
org_refusal k none = some entity_missing
org_refusal (define_org_name id name t) (some n) =
    if truthy name then none else some required_data_missing
org_refusal k (some n) = none

same_lem : (a b : Option String) → same a b ≡ true → a ≡ b
same_lem none none h = refl
same_lem none (some b) h = cc
same_lem (some a) none h = cc
same_lem (some a) (some b) h = ap some ((eq_iff a b).0 h)

-- Leaving out an event that would change nothing is not seen.
pick_lem : (a b : Option String) → (if truthy a && not (same a b) then a else b) ≡ pick a b
pick_lem a b = elim (Bool-cases (same a b)) [
  | inl h ↦ rw (same_lem a b h) (ground arith)
  | inr h ↦ ground arith
]

module _ (id : String) (v : Option String) (t : Option ℕ) (es : List (Event OrgPayload))
    (n : Entity Organization) where
  reduce-name :
      (b : Bool)
      → get_reducer org_reducer (optionally b (name_defined id v t) ++ es) (some n)
        ≡ get_reducer org_reducer es
            (some (record n { domain = record n.domain { name = if b then v else n.domain.name } }))
  unfolding org_reducer
  reduce-name true = rw get_reducer-plain refl
  reduce-name false = refl

  reduce-url :
      (b : Bool)
      → get_reducer org_reducer (optionally b (url_defined id v t) ++ es) (some n)
        ≡ get_reducer org_reducer es
            (some (record n { domain = record n.domain { url = if b then v else n.domain.url } }))
  unfolding org_reducer
  reduce-url true = rw get_reducer-plain refl
  reduce-url false = refl

reduce-pubkey :
    (id : String) (v : Option String) (t : Option ℕ) (n : Entity Organization) (b : Bool)
    → get_reducer org_reducer (optionally b (pubkey_loaded id v t)) (some n)
      ≡ some (record n { domain = record n.domain { pubkey = if b then v else n.domain.pubkey } })
unfolding org_reducer get_reducer
reduce-pubkey id v t n true = rw get_reducer-plain refl
reduce-pubkey id v t n false = refl

-- An organization after `OrgStarted`.
abbrev pub after_started : String → Option ℕ → Entity Organization → Entity Organization
after_started id t n = record n {
  id = some id;
  domain = record n.domain { msp_id = some id; timestamp = t; status = some up };
}

abbrev pub set_name : Option String → Entity Organization → Entity Organization
set_name v n = record n { domain = record n.domain { name = v } }

abbrev pub set_url : Option String → Entity Organization → Entity Organization
set_url v n = record n { domain = record n.domain { url = v } }

pub restart_events_lem :
    (id : String) (name url pubkey : Option String) (t : Option ℕ) (n : Entity Organization)
    → get_reducer org_reducer (restart_events id name url pubkey t n.domain) (some n)
      ≡ org_after (start_org id name url pubkey t) (some n)
unfolding restart_events org_reducer
restart_events_lem id name url pubkey t n =
    let o = n.domain in
    let s = after_started id t n in
    let a = truthy name && not (same name o.name) in
    let b = truthy url && not (same url o.url) in
    let c = truthy pubkey && not (same pubkey o.pubkey) in
    let m = set_name (if a then name else o.name) s in
    let k = set_url (if b then url else o.url) m in
    get_reducer-plain _ _ _ _ _ _
    ∙ reduce-name id name t _ s a
    ∙ reduce-url id url t _ m b
    ∙ reduce-pubkey id pubkey t k c
    ∙ rw (pick_lem, pick_lem, pick_lem) refl

pub start_events_lem :
    (id : String) (name url pubkey : Option String) (t : Option ℕ)
    → truthy name ≡ true
    → get_reducer org_reducer (start_events id name url pubkey t) none
      ≡ org_after (start_org id name url pubkey t) none
unfolding start_events org_reducer
start_events_lem id name url pubkey t h =
    let s = set_name name (after_started id t (spread no_org none)) in
    let k = set_url (if truthy url then url else none) s in
    get_reducer-plain _ _ _ _ _ _
    ∙ get_reducer-plain _ _ _ _ _ _
    ∙ reduce-url id url t _ s (truthy url)
    ∙ reduce-pubkey id pubkey t k (truthy pubkey)
    ∙ rw h refl

pub decide_name-Fits :
    (id : String) (name : Option String) (t : Option ℕ)
    → Fits org_reducer entity_missing
        (decide_name id name t)
        (org_after (define_org_name id name t))
        (org_refusal (define_org_name id name t))
unfolding decide_name org_reducer
decide_name-Fits id name t = record {
  absent = refl;
  refused = λ n e h. ground arith;
  accepted = λ n es h. elim (Bool-cases (truthy name)) [
    | inl y ↦ (rw y refl, reduce-single org_reducer (some n) _ _ _ es (rw y at h))
    | inr m ↦ absurd (ground arith)
  ];
}

abbrev pub missing_refusal : Option (Entity Organization) → Option Error
missing_refusal none = some entity_missing
missing_refusal (some n) = none

-- A command that saves one event, whatever the organization is.
pub single-Fits :
    (e : Event OrgPayload) (result : Option (Entity Organization) → Option (Entity Organization))
    → ((n : Entity Organization) → get_reducer org_reducer (e ∷ []) (some n) ≡ result (some n))
    → Fits org_reducer entity_missing (λ n. ok (e ∷ [])) result missing_refusal
single-Fits e result h = record {
  absent = refl;
  refused = λ n x d. cc;
  accepted = λ n es d. (refl, rw (← ok-injective d) (h n));
}
