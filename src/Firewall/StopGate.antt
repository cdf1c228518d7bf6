-- ===== src/Firewall/StopGate.antt =====
-- tools/orchestrator-firewall/src/stopgate.mjs: `decideStop`.
-- `localeCompare`, of which the sort takes the last of the latest records, is the parameter `le`.
pub mod Released
use mihver.Prelude.{
  String, Bool, true, false, not, ◌&&◌, Option, none, some, List, [], ◌∷◌, ◌==◌, keep,
  if◌then◌else◌,
}
use mihver.Json.{units, less}
use mihver.Firewall.Receipts.{ReceiptStatus, completed, DelegationRecord}

pub data StopReason : Type 0 where
  implementer_required verifier_required verifier_stale : StopReason

pub data StopDecision : Type 0 where
  allow : StopDecision
  block : StopReason → StopDecision

abbrev pub is_completed : ReceiptStatus → Bool
is_completed completed = true
is_completed _ = false

-- `String(r.completedAt)`
unfoldable pub completed_text : DelegationRecord → String
completed_text r = elim r.completed_at [ none ↦ "null" | some t ↦ t ]

-- The receipts of the session and the prompt.
unfoldable pub is_bound : String → String → DelegationRecord → Bool
is_bound session prompt r =
    r.session_id == session && r.prompt_id == prompt && is_completed r.status

unfoldable pub later_verifier : DelegationRecord → DelegationRecord → Bool
later_verifier implementer r =
    r.role == "VERIFIER" && less (units (completed_text implementer)) (units (completed_text r))

unfoldable pub is_current : Option String → String → Bool
is_current none fingerprint = false
is_current (some f) fingerprint = f == fingerprint

module _ (le : String → String → Bool) where
  -- The last element of the sorted list.
  unfoldable pub latest_from : DelegationRecord → List DelegationRecord → DelegationRecord
  latest_from a [] = a
  latest_from a (r ∷ rs) =
      latest_from (if le (completed_text a) (completed_text r) then r else a) rs

  unfoldable pub latest : List DelegationRecord → Option DelegationRecord
  latest [] = none
  latest (r ∷ rs) = some (latest_from r rs)

  unfoldable pub decide_verifier : String → Option DelegationRecord → StopDecision
  decide_verifier current none = block verifier_required
  decide_verifier current (some v) =
      if is_current v.workspace_fingerprint current then allow else block verifier_stale

  unfoldable pub decide_implementer :
      String → List DelegationRecord → Option DelegationRecord → StopDecision
  decide_implementer current bound none = block implementer_required
  decide_implementer current bound (some i) =
      decide_verifier current (latest (keep (later_verifier i) bound))

  -- `decideStop`; whether the stop hook is already active is not looked at.
  unfoldable pub decide_stop :
      String → String → List DelegationRecord → String → String → StopDecision
  decide_stop baseline current records session prompt =
      let bound = keep (is_bound session prompt) records in
      if baseline == current
      then allow
      else decide_implementer current bound (latest (keep (λ r. r.role == "IMPLEMENTER") bound))
