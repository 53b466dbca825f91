-- ===== src/Redis/Selectors.antt =====
-- packages/fabric-cqrs/src/queryHandler/model/preSelector.ts and postSelector.ts, and the part of
-- types/baseSelectors.ts that writes: between commits or entities and their hashes in Redis.
use Prim.Native.Char.{code}
use Prim.Native.String
use fabric_es.Prelude.{
  ℕ, String, Option, none, some, List, [], ◌∷◌, foldl, Result, ok, throw, type_error, eqb,
  if◌then◌else◌,
}
use fabric_es.Types.{Event, Commit}
use fabric_es.Redis.{CommitInRedis, Codec}

-- types/outputCommit.ts: a commit read back, with the fields that were derived when it was written.
pub record OutputCommit (P : Type 0) : Type 0 where
  pub commit : Commit P
  pub creator : Option String
  pub event : Option String
  pub ts : Option ℕ

abbrev pub or_zero : Option ℕ → ℕ
or_zero none = 0
or_zero (some n) = n

infixl 65 ◌+++◌
abbrev pub ◌+++◌ : String → String → String
s +++ t = String.◌++◌ s t

-- trimStart(s, ',')
unfoldable pub trim_commas : String → String
trim_commas String.[] = String.[]
trim_commas (String.◌∷◌ c s) =
    let rest = trim_commas s in if eqb (code c) b',' then rest else String.◌∷◌ c s

-- `JSON.parse` of what is no text of events leaves `events` undefined; `parseInt` gives NaN, here
-- `none`, for what is no number.
abbrev pub read {ℓ} : {A : Type ℓ} → (String → Option A) → Option String → Option A
read f none = none
read f (some s) = f s

module _ {P : Type 0} where
  unfoldable pub join_types : String → Event P → String
  join_types pre e = pre +++ "," +++ e.type

  -- events[0]?.payload
  unfoldable pub first_creator : List (Event P) → Option String
  first_creator [] = none
  first_creator (e ∷ es) = e.payload.creator

  unfoldable pub first_ts : List (Event P) → Option ℕ
  first_ts [] = none
  first_ts (e ∷ es) = e.payload.ts

  -- `events` or `version` of `undefined` throws.
  unfoldable pub pre_selector : Codec P → Commit P → Result CommitInRedis
  unfolding join_types first_creator first_ts trim_commas
  pre_selector codec c = elim c.events [
    | none ↦ throw type_error
    | some es ↦ elim c.version [
      | none ↦ throw type_error
      | some version ↦ ok (record {
        id = c.id;
        entity_name = c.entity_name;
        v = some (codec.show version);
        commit_id = c.commit_id;
        entity_id = c.entity_id;
        msp_id = c.msp_id;
        event = some (trim_commas (foldl join_types "" es));
        creator = first_creator es;
        ts = some (codec.show (or_zero (first_ts es)));
        evstr = some (codec.stringify es);
        signed_request = c.signed_request;
      })
    ]
  ]

  unfoldable pub post_selector : Codec P → CommitInRedis → OutputCommit P
  post_selector codec r = record {
    commit = record {
      id = r.id;
      entity_name = r.entity_name;
      version = read codec.parse_int r.v;
      commit_id = r.commit_id;
      entity_id = r.entity_id;
      msp_id = r.msp_id;
      events = read codec.parse r.evstr;
      signed_request = r.signed_request;
    };
    creator = r.creator;
    event = r.event;
    ts = read codec.parse_int r.ts;
  }
