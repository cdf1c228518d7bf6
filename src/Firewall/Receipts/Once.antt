-- ===== src/Firewall/Receipts/Once.antt =====
-- A tool use ends once.
use mihver.Prelude.{
  ◌∙◌, ℕ, ◌+◌, ◌≤◌, ◌≡◌, refl, String, false, ◌&&◌, Option, none, some, List, [], ◌∷◌, ◌++◌, ◌==◌,
  arith, any, eq_iff, Bool-cases, Option-cases, inl, inr, if◌then◌else◌, true, ap,
}
use mihver.Council.Hashes.{Sha}
use mihver.Firewall.Chain.{
  Entry, missing, verify_chain, next_entry, append_record, write_record, write_head,
}
use mihver.Firewall.Receipts.{
  DelegationRecord, delegation_json, StartInput, EndInput, Ledger, is_ended, last_started, ends_use,
  append_started, ended_record, append_completion, append_invalid, started_record, invalid_record,
  stop_record,
}

-- One call of the ledger's functions; one that throws changes nothing.
pub data Operation : Type 0 where
  starts : StartInput → String → Operation
  ends : EndInput → String → Operation
  rejects : StartInput → String → String → Operation
  stops : String → String → String → String → Operation

abbrev pub after : Ledger → Option (Ledger × Entry DelegationRecord) → Ledger
after s none = s
after s (some (t, e)) = t

-- How often a tool use has ended.
abbrev pub endings : String → List (Entry DelegationRecord) → ℕ
endings id [] = 0
endings id (e ∷ es) = (if ends_use id e then 1 else 0) + endings id es

abbrev pub empty_ledger : Ledger
empty_ledger = record { records = []; head = missing }

endings-snoc :
    (id : String) (es : List (Entry DelegationRecord)) (e : Entry DelegationRecord)
    → endings id (es ++ e ∷ []) ≡ endings id es + endings id (e ∷ [])
endings-snoc id [] e = omega arith
endings-snoc id (x ∷ es) e = omega (arith, endings-snoc id es e)

endings-none :
    (id : String) (es : List (Entry DelegationRecord))
    → any (ends_use id) es ≡ false
    → endings id es ≡ 0
unfolding any
endings-none id [] h = refl
endings-none id (e ∷ es) h = ground (arith, endings-none id es)

pub last_started-id :
    (es : List (Entry DelegationRecord)) (id : String) (r : DelegationRecord)
    → last_started es id ≡ some r
    → r.tool_use_id ≡ id
unfolding last_started
last_started-id [] id r h = absurd (ground arith)
last_started-id (e ∷ es) id r h = elim (Option-cases (last_started es id)) [
  | inl n ↦ ground (arith, eq_iff e.fields.tool_use_id id)
  | inr (q, f) ↦ ground (arith, last_started-id es id q f)
]

module _ (sha256 : Sha) where
  unfoldable pub perform : Ledger → Operation → Ledger
  perform s (starts input at) = after s (append_started sha256 s input at)
  perform s (ends input at) = after s (append_completion sha256 s input at)
  perform s (rejects input detail now) = after s (append_invalid sha256 s input detail now)
  perform s (stops session prompt reason now) =
      after s (append_record sha256 delegation_json s (stop_record session prompt reason now))

  unfoldable pub perform_all : Ledger → List Operation → Ledger
  perform_all s [] = s
  perform_all s (o ∷ os) = perform_all (perform s o) os

  endings-append_record :
      (id : String) (s : Ledger) (r : DelegationRecord)
      → endings id (after s (append_record sha256 delegation_json s r)).records
        ≤ endings id s.records + (if is_ended r.status && r.tool_use_id == id then 1 else 0)
  unfolding append_record write_record write_head next_entry ends_use
  endings-append_record id s r = elim (Bool-cases (verify_chain sha256 delegation_json s)) [
    | inl e ↦
        rw e
          (omega (arith, endings-snoc id s.records (next_entry sha256 delegation_json s.records r)))
    | inr e ↦ rw e (omega arith)
  ]

  endings-append_completion :
      (id : String) (s : Ledger) (input : EndInput) (at : String)
      → endings id s.records ≤ 1
      → endings id (after s (append_completion sha256 s input at)).records ≤ 1
  unfolding append_completion
  endings-append_completion id s input at h =
      elim (Option-cases (last_started s.records input.tool_use_id)) [
        | inl e ↦ ground arith
        | inr (r, e) ↦ ground (
          arith,
          endings-append_record id s (ended_record sha256 r input at),
          endings-none input.tool_use_id s.records,
          last_started-id s.records input.tool_use_id r e,
          same_use r,
          eq_iff (ended_record sha256 r input at).tool_use_id id,
        )
      ]
    where
      same_use :
          (r : DelegationRecord) → (ended_record sha256 r input at).tool_use_id ≡ r.tool_use_id
      same_use r = unfold ended_record in refl

  endings-perform :
      (id : String) (s : Ledger) (o : Operation)
      → endings id s.records ≤ 1
      → endings id (perform s o).records ≤ 1
  unfolding perform append_started append_invalid
  endings-perform id s (starts input at) h =
      ground (arith, endings-append_record id s (started_record sha256 input at), open_status)
    where
      open_status : is_ended (started_record sha256 input at).status ≡ false
      open_status = unfold started_record in refl
  endings-perform id s (ends input at) h = endings-append_completion id s input at h
  endings-perform id s (rejects input detail now) h =
      ground
        (arith, endings-append_record id s (invalid_record sha256 input detail now), open_status)
    where
      open_status : is_ended (invalid_record sha256 input detail now).status ≡ false
      open_status = unfold invalid_record in refl
  endings-perform id s (stops session prompt reason now) h =
      ground
        (arith, endings-append_record id s (stop_record session prompt reason now), open_status)
    where
      open_status : is_ended (stop_record session prompt reason now).status ≡ false
      open_status = unfold stop_record in refl

  endings-perform_all :
      (id : String) (s : Ledger) (os : List Operation)
      → endings id s.records ≤ 1
      → endings id (perform_all s os).records ≤ 1
  unfolding perform_all
  endings-perform_all id s [] h = h
  endings-perform_all id s (o ∷ os) h =
      endings-perform_all id (perform s o) os (endings-perform id s o h)

  -- Whatever is started, completed, rejected and stopped on an empty ledger, in any order and however often,
  -- a tool use has at most one COMPLETED or FAILED record.
  pub endings-le_one :
      (id : String) (os : List Operation) → endings id (perform_all empty_ledger os).records ≤ 1
  endings-le_one id os = endings-perform_all id empty_ledger os (omega arith)

  -- A completion that is recorded answers a STARTED record of the same tool use, of which it keeps
  -- session, prompt, role, task, scope and base; it was not ended before, and the ledger verified.
  pub record Completes (s : Ledger) (input : EndInput) (e : Entry DelegationRecord) : Type 0 where
    pub start : DelegationRecord
    pub found : last_started s.records input.tool_use_id ≡ some start
    pub same_use : e.fields.tool_use_id ≡ input.tool_use_id
    pub same_session : e.fields.session_id ≡ start.session_id
    pub same_prompt : e.fields.prompt_id ≡ start.prompt_id
    pub same_role : e.fields.role ≡ start.role
    pub same_task : e.fields.task_id ≡ start.task_id
    pub same_scope : e.fields.scope_hash ≡ start.scope_hash
    pub same_base : e.fields.base_sha ≡ start.base_sha
    pub first_end : any (ends_use input.tool_use_id) s.records ≡ false
    pub verified : verify_chain sha256 delegation_json s ≡ true

  -- A completion is recorded only for a tool use that has a STARTED record and no terminal one, on a
  -- ledger that verifies; it keeps the session, prompt, role, task, scope and base of that record.
  pub append_completion-Completes :
      (s t : Ledger) (input : EndInput) (at : String) (e : Entry DelegationRecord)
      → append_completion sha256 s input at ≡ some (t, e)
      → Completes s input e
  unfolding append_completion
  append_completion-Completes s t input at e h =
      elim (Option-cases (last_started s.records input.tool_use_id)) [
        | inl n ↦ absurd (ground arith)
        | inr (r, f) ↦
            let written : e.fields ≡ ended_record sha256 r input at =
              unfold append_record next_entry in ground arith in
            let kept : (ended_record sha256 r input at).tool_use_id ≡ r.tool_use_id =
              unfold ended_record in refl in
            record {
              start = r;
              found = f;
              same_use =
                  ap (λ x. x.tool_use_id) written
                  ∙ kept
                  ∙ last_started-id s.records input.tool_use_id r f;
              same_session = ap (λ x. x.session_id) written ∙ (unfold ended_record in refl);
              same_prompt = ap (λ x. x.prompt_id) written ∙ (unfold ended_record in refl);
              same_role = ap (λ x. x.role) written ∙ (unfold ended_record in refl);
              same_task = ap (λ x. x.task_id) written ∙ (unfold ended_record in refl);
              same_scope = ap (λ x. x.scope_hash) written ∙ (unfold ended_record in refl);
              same_base = ap (λ x. x.base_sha) written ∙ (unfold ended_record in refl);
              first_end = ground arith;
              verified = ground arith;
            }
      ]
