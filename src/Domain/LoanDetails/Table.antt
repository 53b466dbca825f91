-- ===== src/Domain/LoanDetails/Table.antt =====
-- What each command makes of loan details and which error refuses it, stated without events.
use mathlib.Core.Bool.{false≢true}
use fabric_es.Prelude.{
  String, ◌≡◌, ◌∙◌, refl, Bool, true, false, ◌&&◌, Option, none, some, List, [], ◌∷◌, ◌++◌, Error,
  arith, ok, throw, truthy, truthy_num, if◌then◌else◌,
}
use fabric_es.Types.{Event}
use fabric_es.Reducer.{Entity, get_reducer}
use fabric_es.Domain.Handlers.{plain, fresh, invalid_operation, required_data_missing}
use fabric_es.Domain.Handlers.Effects.{Fits, get_reducer-plain, reduce-single}
use fabric_es.Domain.LoanDetails.{
  LoanRequester, ContactInfo, LoanDetails, if_truthy, loan_details_reducer, DetailsPayload,
}
use fabric_es.Domain.LoanDetails.Commands.{
  DetailsTarget, NewDetails, DetailsCommand, create_loan_details, define_loan_requester,
  define_loan_contact, define_loan_type, define_loan_currency, define_loan_dtl_comment,
  define_loan_start_date, define_loan_tenor, define_loan_requested_amt, define_loan_approved_amt,
  loan_details_not_found, details_base, or_no_contact, or_no_requester, assign_contact, is_blank,
  is_requester, is_contact, created_details, decide_details,
}

-- The requester and the contact as they are kept: without a falsy type, salutation or title.
abbrev pub kept_requester : LoanRequester → LoanRequester
kept_requester r = record r { type = if_truthy r.type }

abbrev pub kept_contact : ContactInfo → ContactInfo
kept_contact c = record c { salutation = if_truthy c.salutation; title = if_truthy c.title }

abbrev pub new_details : DetailsTarget → NewDetails → Entity LoanDetails
new_details t d = fresh (some t.loan_id) (record {
  loan_id = some t.loan_id;
  requester = some (kept_requester (or_no_requester d.requester));
  contact = some (kept_contact (or_no_contact d.contact));
  loan_type = if truthy d.loan_type then d.loan_type else none;
  start_date = d.start_date;
  tenor = d.tenor;
  currency = d.currency;
  requested_amt = d.requested_amt;
  approved_amt = if truthy_num d.approved_amt then d.approved_amt else none;
  comment = if truthy d.comment then d.comment else none;
  timestamp = t.timestamp;
})

abbrev domain_after : DetailsCommand → LoanDetails → LoanDetails
domain_after (define_loan_contact t g) d = record d {
  contact = some (kept_contact (assign_contact (or_no_contact d.contact) g));
}
domain_after (define_loan_type t v) d = record d { loan_type = v }
domain_after (define_loan_tenor t v) d = record d { tenor = v }
domain_after (define_loan_currency t v) d = record d { currency = v }
domain_after (define_loan_requested_amt t v) d = record d { requested_amt = v }
domain_after (define_loan_approved_amt t v) d = record d { approved_amt = v }
domain_after (define_loan_dtl_comment t v) d = record d { comment = v }
domain_after _ d = d

abbrev pub details_after :
    DetailsCommand → Option (Entity LoanDetails) → Option (Entity LoanDetails)
details_after (create_loan_details t d) s = some (new_details t d)
details_after _ none = none
details_after c (some n) = some (record n { domain = domain_after c n.domain })

abbrev pub is_complete : NewDetails → Bool
is_complete d =
    is_requester d.requester
    && (is_contact d.contact
        && (truthy_num d.start_date
            && (truthy_num d.tenor && (truthy d.currency && truthy_num d.requested_amt))))

abbrev pub unless : Bool → Error → Option Error
unless b e = if b then none else some e

-- The commands that are refused whatever they carry.
abbrev pub is_invalid : DetailsCommand → Bool
is_invalid (define_loan_requester t v) = true
is_invalid (define_loan_start_date t v) = true
is_invalid c = false

-- The commands that read the details first.
abbrev pub is_update : DetailsCommand → Bool
is_update (create_loan_details t d) = false
is_update (define_loan_requester t v) = false
is_update (define_loan_start_date t v) = false
is_update c = true

abbrev pub has_data : DetailsCommand → Bool
has_data (define_loan_contact t g) =
    if is_blank g.name
    then false
    else if is_blank g.phone
    then false
    else if is_blank g.email
    then false
    else true
has_data (define_loan_tenor t v) = truthy_num v
has_data (define_loan_currency t v) = truthy v
has_data (define_loan_requested_amt t v) = truthy_num v
has_data c = true

-- The error of a command that is not accepted.
abbrev pub details_refusal : DetailsCommand → Option (Entity LoanDetails) → Option Error
details_refusal (create_loan_details t d) s = unless (is_complete d) required_data_missing
details_refusal (define_loan_requester t v) s = some invalid_operation
details_refusal (define_loan_start_date t v) s = some invalid_operation
details_refusal c none = some loan_details_not_found
details_refusal c (some n) = unless (has_data c) required_data_missing

-- An event that a handler adds when a test holds.
if_event :
    (b : Bool) (s : Option (Entity LoanDetails)) (type : String) (p : DetailsPayload)
    (es : List (Event DetailsPayload))
    → get_reducer loan_details_reducer ((if b then plain type none p ∷ [] else []) ++ es) s
      ≡ get_reducer loan_details_reducer es
          (if b then loan_details_reducer s (plain type none p) else s)
if_event true s type p es = get_reducer-plain loan_details_reducer s type none p es
if_event false s type p es = refl

if_last :
    (b : Bool) (s : Option (Entity LoanDetails)) (type : String) (p : DetailsPayload)
    → get_reducer loan_details_reducer (if b then plain type none p ∷ [] else []) s
      ≡ (if b then loan_details_reducer s (plain type none p) else s)
if_last true s type p =
    get_reducer-plain loan_details_reducer s type none p [] ∙ (unfold get_reducer in refl)
if_last false s type p = unfold get_reducer in refl

pub created_details_lem :
    (t : DetailsTarget) (d : NewDetails) (s : Option (Entity LoanDetails))
    → get_reducer loan_details_reducer (created_details t d) s ≡ some (new_details t d)
unfolding created_details loan_details_reducer
created_details_lem t d s = rw get_reducer-plain (
    rw get_reducer-plain (
      rw get_reducer-plain (
        rw get_reducer-plain (
          rw get_reducer-plain (
            rw get_reducer-plain (
              rw get_reducer-plain (
                rw (if_event (truthy d.loan_type))
                  (rw (if_event (truthy_num d.approved_amt)) (rw if_last (ground arith))))))))))

-- A command that saves one event when its data is there.
guarded-Fits :
    (c : DetailsCommand) (b : Bool) (type : String) (p : Entity LoanDetails → DetailsPayload)
    → ((n : Entity LoanDetails)
        → decide_details c n
          ≡ (if b then ok (plain type none (p n) ∷ []) else throw required_data_missing))
    → ((n : Entity LoanDetails)
        → loan_details_reducer (some n) (plain type none (p n)) ≡ details_after c (some n))
    → details_refusal c none ≡ some loan_details_not_found
    → ((n : Entity LoanDetails) → details_refusal c (some n) ≡ unless b required_data_missing)
    → Fits loan_details_reducer loan_details_not_found
        (decide_details c)
        (details_after c)
        (details_refusal c)
guarded-Fits c true type p decides reduces absent present = record {
  absent = absent;
  refused = λ n e h. ground (arith, decides n);
  accepted = λ n es h. (
    present n,
    reduce-single loan_details_reducer (some n) type none (p n) es (rw (decides n) at h)
        ∙ reduces n,
  );
}
guarded-Fits c false type p decides reduces absent present = record {
  absent = absent;
  refused = λ n e h. ground (arith, decides n, present n);
  accepted = λ n es h. absurd (ground (arith, decides n));
}

pub decide_details-Fits :
    (c : DetailsCommand)
    → is_update c ≡ true
    → Fits loan_details_reducer loan_details_not_found
        (decide_details c)
        (details_after c)
        (details_refusal c)
unfolding decide_details loan_details_reducer
decide_details-Fits (create_loan_details t d) u = absurd (false≢true u)
decide_details-Fits (define_loan_requester t v) u = absurd (false≢true u)
decide_details-Fits (define_loan_start_date t v) u = absurd (false≢true u)
decide_details-Fits (define_loan_contact t g) u =
    guarded-Fits (define_loan_contact t g) (has_data (define_loan_contact t g)) "LoanContactDefined"
      (λ n. record (details_base t) { contact = assign_contact (or_no_contact n.domain.contact) g })
      (λ n. ground arith) (λ n. refl) refl (λ n. refl)
decide_details-Fits (define_loan_tenor t v) u =
    guarded-Fits (define_loan_tenor t v) (truthy_num v) "LoanTenorDefined"
      (λ n. record (details_base t) { tenor = v }) (λ n. refl) (λ n. refl) refl (λ n. refl)
decide_details-Fits (define_loan_currency t v) u =
    guarded-Fits (define_loan_currency t v) (truthy v) "LoanCurrencyDefined"
      (λ n. record (details_base t) { currency = v }) (λ n. refl) (λ n. refl) refl (λ n. refl)
decide_details-Fits (define_loan_requested_amt t v) u =
    guarded-Fits (define_loan_requested_amt t v) (truthy_num v) "LoanRequestedAmtDefined"
      (λ n. record (details_base t) { requested_amt = v }) (λ n. refl) (λ n. refl) refl (λ n. refl)
decide_details-Fits c u = record {
  absent = refl;
  refused = λ n e h. cc;
  accepted = λ n es h. (refl, reduce-single loan_details_reducer (some n) _ _ _ es h);
}
