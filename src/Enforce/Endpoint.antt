-- ===== src/Enforce/Endpoint.antt =====
-- controllers/enforce.go: the endpoint at which a patched agent asks for a verdict, which records
-- the operation whatever the verdict.
use casdoor_aiguard.Common.Text.{Str, ◌==◌, eq_iff, trim_space}
use casdoor_aiguard.Common.{
  Option, none, some, true, false, not, [], ◌∷◌, ◌++◌, ◌≡◌, ◌≢◌, refl, arith, if◌then◌else◌,
  Bool-cases, inl, inr, ◌⊎◌,
}
use casdoor_aiguard.Enforce.State.{EnforceState, enforce_for_agent, reason}
use casdoor_aiguard.Enforce.{Casbin, Decision}
use casdoor_aiguard.PolicyHub.{HubFile}
use casdoor_aiguard.Record.Store.{DbErrors, Table, add_record, db_insert, has_id}
use casdoor_aiguard.Record.{Record, normalize}

pub data EnforceResult : Type 0 where
  bad_body : Str → EnforceResult
  agent_required : EnforceResult
  ruled : Decision → EnforceResult

-- A record whose completed id is taken brought that id itself.
taken_id :
    (uuid now : Str) (r : Record) (rows : Table)
    → has_id uuid rows ≡ false
    → has_id (normalize uuid now r).id rows ≡ true
    → has_id r.id rows ≡ true
unfolding normalize
taken_id uuid now r rows fresh e = elim (Bool-cases (r.id == [])) [
  | inl q ↦ ground (arith, q, e, fresh)
  | inr q ↦ ground (arith, q, e)
]

-- The verdict on the record.
unfoldable pub with_verdict : (Str → Str) → Str → Decision → Record → Record
with_verdict quote ip d r = record r {
  client_ip = trim_space ip;
  policy_set = d.policy_set;
  is_allowed = d.allowed;
  reason = reason quote d r.resource r.intent;
  is_triggered = if not d.allowed then true else r.is_triggered;
}

module _ (cb : Casbin) (hub : Str → HubFile) (quote : Str → Str) where
  -- `Enforce` on a request: an error of `json.Unmarshal`, or the record of the body.
  unfoldable pub enforce :
      DbErrors
      → Str
      → Str
      → Str
      → Str ⊎ Record
      → EnforceState cb
      → Table
      → EnforceResult × EnforceState cb × Table
  unfolding with_verdict ◌==◌
  enforce db ip uuid now (inl e) st rows = (bad_body e, st, rows)
  enforce db ip uuid now (inr r) st rows =
      if r.agent == []
      then (agent_required, st, rows)
      else let (d, st') = enforce_for_agent cb hub r.agent r.resource r.intent st in
        (ruled d, st', add_record db uuid now (with_verdict quote ip d r) rows)

  -- A row that says what was ruled on a reported operation.
  pub record Tells (ip : Str) (r : Record) (d : Decision) (row : Record) : Type 0 where
    pub is_allowed : row.is_allowed ≡ d.allowed
    pub policy_set : row.policy_set ≡ d.policy_set
    pub reason : row.reason ≡ reason quote d r.resource r.intent
    pub client_ip : row.client_ip ≡ trim_space ip
    pub agent : row.agent ≡ r.agent
    pub resource : row.resource ≡ r.resource
    pub intent : row.intent ≡ r.intent
    pub is_triggered : (d.allowed ≡ true) ⊎ (row.is_triggered ≡ true)

  normalize-Tells :
      (ip uuid now : Str) (r : Record) (d : Decision)
      → Tells ip r d (normalize uuid now (with_verdict quote ip d r))
  unfolding normalize with_verdict
  normalize-Tells ip uuid now r d = record {
    is_allowed = ground arith;
    policy_set = refl;
    reason = refl;
    client_ip = refl;
    agent = refl;
    resource = refl;
    intent = refl;
    is_triggered = ground arith;
  }

  -- The table after a report: a row that tells the verdict is its last, unless its id was taken.
  pub data Recorded (db : DbErrors) (ip : Str) (r : Record) (d : Decision) (rows : Table)
      : Table → Type 0 where
    added :
        db.insert ≡ none
        → (row : Record) → Tells ip r d row
        → Recorded db ip r d rows (rows ++ row ∷ [])
    lost : {e : Str} → db.insert ≡ some e → Recorded db ip r d rows rows
    refused : has_id r.id rows ≡ true → Recorded db ip r d rows rows

  insert-Recorded :
      (db : DbErrors) (ip uuid now : Str) (r : Record) (d : Decision) (rows : Table)
      (o : Option Str)
      → has_id uuid rows ≡ false
      → db.insert ≡ o
      → Recorded db ip r d rows (db_insert o (normalize uuid now (with_verdict quote ip d r)) rows)
  unfolding db_insert
  insert-Recorded db ip uuid now r d rows (some e) fresh q = lost q
  insert-Recorded db ip uuid now r d rows none fresh q =
      elim (Bool-cases (has_id (normalize uuid now (with_verdict quote ip d r)).id rows)) [
        | inl e ↦ rw e (refused (taken e))
        | inr e ↦ rw e (
            added q (normalize uuid now (with_verdict quote ip d r))
              (normalize-Tells ip uuid now r d))
      ]
    where
      taken :
          has_id (normalize uuid now (with_verdict quote ip d r)).id rows ≡ true
          → has_id r.id rows ≡ true
      taken e = unfold with_verdict in taken_id uuid now (with_verdict quote ip d r) rows fresh e

  -- An operation that a named agent reports, with a fresh id at hand, is answered with the verdict
  -- on its resource and intent; and a row is added that tells this verdict, that is triggered if it
  -- is a deny, and whose address is the connection's. Only where the report brings an id that
  -- the table has already, or the insert fails for another reason, is no row added.
  pub enforce-Recorded :
      (db : DbErrors) (ip uuid now : Str) (r : Record) (st : EnforceState cb) (rows : Table)
      → r.agent ≢ []
      → has_id uuid rows ≡ false
      → ((enforce db ip uuid now (inr r) st rows).0
          ≡ ruled (enforce_for_agent cb hub r.agent r.resource r.intent st).0)
        × ((enforce db ip uuid now (inr r) st rows).1
            ≡ (enforce_for_agent cb hub r.agent r.resource r.intent st).1)
        × Recorded db ip r
            (enforce_for_agent cb hub r.agent r.resource r.intent st).0
            rows
            (enforce db ip uuid now (inr r) st rows).2
  unfolding enforce add_record
  enforce-Recorded db ip uuid now r st rows n fresh = elim (Bool-cases (r.agent == [])) [
    | inl e ↦ absurd (n ((eq_iff r.agent []).0 e))
    | inr e ↦ rw e (
      refl,
      refl,
      insert-Recorded db ip uuid now r (enforce_for_agent cb hub r.agent r.resource r.intent st).0
          rows db.insert fresh refl,
    )
  ]
