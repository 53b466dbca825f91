-- ===== src/Types.antt =====
-- packages/fabric-cqrs/src/types/commit.ts: events and commits. `P` is the domain's own part of a
-- payload. An optional field is an `Option`; an absent payload is one with no field.
pub mod Guards
pub mod Stamps
pub mod Tags
use fabric_es.Prelude.{ℕ, String, Option, List}

pub data Lifecycle : Type 0 where
  normal begin end : Lifecycle

pub record Payload (P : Type 0) : Type 0 where
  pub body : P
  pub id : Option String
  pub entity_name : Option String
  pub tag : Option String
  pub creator : Option String
  pub created : Option ℕ
  pub ts : Option ℕ

pub record Event (P : Type 0) : Type 0 where
  pub type : String
  pub life_cycle : Option Lifecycle
  pub payload : Payload P

pub record Commit (P : Type 0) : Type 0 where
  pub id : Option String
  pub entity_name : Option String
  pub version : Option ℕ
  pub commit_id : Option String
  pub entity_id : Option String
  pub msp_id : Option String
  pub events : Option (List (Event P))
  pub signed_request : Option String

abbrev pub track_event : String
track_event = "PrivateDataTracked"
