-- ===== src/Domain/Loan/Runs.antt =====
-- Runs of loan commands on a repository, in any order, refused ones included, with whatever happens
-- between them that changes no history.
use text.Mathlib.TextEquality.{eq_iff}
use fabric_es.Prelude.{
  String, ◌≡◌, ◌≢◌, refl, sym, ap, ◌∙◌, Bool, false, some, arith, Option-cases, Bool-cases, inl,
  inr, ◌==◌,
}
use fabric_es.Reducer.{Entity}
use fabric_es.Repository.{Repo, IsRepo}
use fabric_es.Domain.Handlers.{reducer_of}
use fabric_es.Domain.Loan.{
  Loan, LoanPayload, loan_reducer, LoanCommand, apply_loan, define_loan_reference, target,
  loan_command_handler,
}
use fabric_es.Domain.Loan.Laws.{
  result_of, refusal, loan_of, loan_command_handler-effect, loan_command_handler-refused,
}

abbrev pub applies_for : String → LoanCommand → Bool
applies_for id (apply_loan t description reference comment) = t.loan_id == id
applies_for id c = false

-- What a loan keeps for life.
pub record IsSame (n m : Entity Loan) : Type 0 where
  pub id : m.id ≡ n.id
  pub loan_id : m.domain.loan_id ≡ n.domain.loan_id
  pub owner_id : m.domain.owner_id ≡ n.domain.owner_id
  pub reference : m.domain.reference ≡ n.domain.reference
  pub timestamp : m.domain.timestamp ≡ n.domain.timestamp

unchanged : (n : Entity Loan) → IsSame n n
unchanged n = record {
  id = refl;
  loan_id = refl;
  owner_id = refl;
  reference = refl;
  timestamp = refl;
}

module _ {repo : Repo LoanPayload Loan} (laws : IsRepo repo (reducer_of loan_reducer)) where
  open repo use {Db}

  -- A run that applies for no loan with this id.
  pub data Run (id : String) : Db → Db → Type 0 where
    stop : {db : Db} → Run id db db
    wait :
        {db db' last : Db}
        → laws.Valid db'
        → ((j : String) → laws.history db' j ≡ laws.history db j)
        → Run id db' last
        → Run id db last
    command :
        {db last : Db} (c : LoanCommand)
        → applies_for id c ≡ false
        → laws.Ready db
        → Run id ((loan_command_handler repo c db).1) last
        → Run id db last

  result_of-IsSame :
      (id : String) (c : LoanCommand) (n : Entity Loan)
      → (target c).loan_id ≡ id
      → applies_for id c ≡ false
      → (m : Entity Loan) × (result_of c (some n) ≡ some m) × IsSame n m
  result_of-IsSame id (apply_loan t description reference comment) n e a =
      absurd (ground (arith, eq_iff t.loan_id id))
  result_of-IsSame id (define_loan_reference t reference) n e a = (n, refl, unchanged n)
  result_of-IsSame id c n e a = (
    _,
    refl,
    record { id = refl; loan_id = refl; owner_id = refl; reference = refl; timestamp = refl },
  )

  -- One command that is not an application keeps a loan.
  command-IsSame :
      (id : String) (db : Db) (c : LoanCommand) (n : Entity Loan)
      → laws.Valid db
      → laws.Ready db
      → applies_for id c ≡ false
      → loan_of laws db id ≡ some n
      → laws.Valid ((loan_command_handler repo c db).1)
        × ((m : Entity Loan) × (loan_of laws ((loan_command_handler repo c db).1) id ≡ some m)
            × IsSame n m)
  command-IsSame id db c n v r a s =
      elim (Option-cases (refusal c (loan_of laws db (target c).loan_id))) [
        | inr (e, h) ↦
            let same_db = ap (λ p. p.1) (loan_command_handler-refused laws db v c e h) in
            rw same_db (v, (n, s, unchanged n))
        | inl h ↦
            let (k, db', run, v', own, others) = loan_command_handler-effect laws db v c r h in
            let new_db = ap (λ p. p.1) run in
            elim (Bool-cases ((target c).loan_id == id)) [
              | inl y ↦
                  let t : (target c).loan_id ≡ id = (eq_iff (target c).loan_id id).0 y in
                  let (m, e, same) = result_of-IsSame id c n t a in
                  let now : loan_of laws db (target c).loan_id ≡ some n =
                    ap (λ j. loan_of laws db j) t ∙ s in
                  rw new_db (
                    v',
                    (
                      m,
                      ap (λ j. loan_of laws db' j) (sym t) ∙ own ∙ ap (result_of c) now ∙ e,
                      same,
                    ),
                  )
              | inr x ↦
                  let ne : (target c).loan_id ≢ id =
                    λ t. ground (arith, eq_iff (target c).loan_id id) in
                  rw new_db (v', (n, others id ne ∙ s, unchanged n))
            ]
      ]

  IsSame-trans : (n m k : Entity Loan) → IsSame n m → IsSame m k → IsSame n k
  IsSame-trans n m k a b = record {
    id = b.id ∙ a.id;
    loan_id = b.loan_id ∙ a.loan_id;
    owner_id = b.owner_id ∙ a.owner_id;
    reference = b.reference ∙ a.reference;
    timestamp = b.timestamp ∙ a.timestamp;
  }

  -- Over any repository that satisfies the laws, through any run from a valid database of loan
  -- commands, refused ones included, none of which applies for the loan with this id and each given
  -- when the repository is ready, with waits between them that change no history: a loan that
  -- exists with this id still exists, with its id, loan id, owner, reference and timestamp.
  pub Run-IsSame :
      (id : String) {db last : Db} (n : Entity Loan)
      → Run id db last
      → laws.Valid db
      → loan_of laws db id ≡ some n
      → (m : Entity Loan) × (loan_of laws last id ≡ some m) × IsSame n m
  Run-IsSame id n stop v s = (n, s, unchanged n)
  Run-IsSame id n (wait v' same rest) v s =
      Run-IsSame id n rest v' (ap (λ es. reducer_of loan_reducer es) (same id) ∙ s)
  Run-IsSame id {db} n (command c a r rest) v s =
      let (v', (m, now, same)) = command-IsSame id db c n v r a s in
      let (k, last, still) = Run-IsSame id m rest v' now in (k, last, IsSame-trans n m k same still)
