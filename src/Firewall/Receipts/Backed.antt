-- ===== src/Firewall/Receipts/Backed.antt =====
-- What every operation on a ledger of receipts keeps: its chain, and the start behind each end.
use mihver.Firewall.Chain.Evidence.{append_record-Appends}
use mihver.Firewall.Receipts.Once.{
  after, last_started-id, append_completion-Completes, Operation, starts, ends, rejects, stops,
  perform, perform_all, empty_ledger,
}
use mihver.Firewall.Receipts.{
  DelegationRecord, delegation_json, is_started, is_ended, last_started, append_completion, Ledger,
  EndInput, append_started, append_invalid, ended_record, started_record, invalid_record,
  stop_record,
}
use mihver.Firewall.Chain.{Entry, verify_chain, append_record, next_entry, chain_from, head_matches}
use mihver.Council.Hashes.{Sha}
use mihver.Prelude.{
  ◌≡◌, refl, sym, ap, subst, ◌⊎◌, inl, inr, true, false, Option, none, some, List, [], ◌∷◌, ◌++◌,
  arith, String, Option-cases, ◌∙◌,
}

-- The receipts that a ledger holds.
abbrev pub Among : DelegationRecord → List (Entry DelegationRecord) → Type 0
Among r [] = ⊥
Among r (e ∷ es) = (r ≡ e.fields) ⊎ Among r es

-- The start of the tool use that a receipt ends, with what the receipt has taken from it.
pub record Start (es : List (Entry DelegationRecord)) (r : DelegationRecord) : Type 0 where
  pub start : DelegationRecord
  pub among : Among start es
  pub is_start : is_started start.status ≡ true
  pub same_use : r.tool_use_id ≡ start.tool_use_id
  pub same_session : r.session_id ≡ start.session_id
  pub same_prompt : r.prompt_id ≡ start.prompt_id
  pub same_role : r.role ≡ start.role
  pub same_task : r.task_id ≡ start.task_id
  pub same_scope : r.scope_hash ≡ start.scope_hash
  pub same_base : r.base_sha ≡ start.base_sha

abbrev pub Backed : List (Entry DelegationRecord) → Type 0
Backed es = (r : DelegationRecord) → Among r es → is_ended r.status ≡ true → Start es r

Among-snoc :
    (r : DelegationRecord) (es : List (Entry DelegationRecord)) (e : Entry DelegationRecord)
    → Among r es
    → Among r (es ++ e ∷ [])
Among-snoc r [] e x = absurd x
Among-snoc r (x ∷ es) e (inl h) = inl h
Among-snoc r (x ∷ es) e (inr h) = inr (Among-snoc r es e h)

snoc-Among :
    (r : DelegationRecord) (es : List (Entry DelegationRecord)) (e : Entry DelegationRecord)
    → Among r (es ++ e ∷ [])
    → Among r es ⊎ (r ≡ e.fields)
snoc-Among r [] e (inl h) = inr h
snoc-Among r [] e (inr h) = absurd h
snoc-Among r (x ∷ es) e (inl h) = inl (inl h)
snoc-Among r (x ∷ es) e (inr h) = elim (snoc-Among r es e h) [ inl k ↦ inl (inr k) | inr k ↦ inr k ]

Start-snoc :
    (r : DelegationRecord) (es : List (Entry DelegationRecord)) (e : Entry DelegationRecord)
    → Start es r
    → Start (es ++ e ∷ []) r
Start-snoc r es e s = record {
  start = s.start;
  among = Among-snoc s.start es e s.among;
  is_start = s.is_start;
  same_use = s.same_use;
  same_session = s.same_session;
  same_prompt = s.same_prompt;
  same_role = s.same_role;
  same_task = s.same_task;
  same_scope = s.same_scope;
  same_base = s.same_base;
}

Backed-snoc :
    (es : List (Entry DelegationRecord)) (e : Entry DelegationRecord)
    → Backed es
    → (is_ended e.fields.status ≡ false) ⊎ Start es e.fields
    → Backed (es ++ e ∷ [])
Backed-snoc es e backed new r here ended = elim (snoc-Among r es e here) [
  | inl k ↦ Start-snoc r es e (backed r k ended)
  | inr k ↦ elim new [
    | inl no_end ↦ absurd (ground arith)
    | inr s ↦ Start-snoc r es e (subst (Start es) (sym k) s)
  ]
]

last_started-Among :
    (es : List (Entry DelegationRecord)) (id : String) (r : DelegationRecord)
    → last_started es id ≡ some r
    → Among r es × (is_started r.status ≡ true)
unfolding last_started
last_started-Among [] id r h = absurd (ground arith)
last_started-Among (e ∷ es) id r h = elim (Option-cases (last_started es id)) [
  | inl n ↦ here (ground arith)
  | inr (q, f) ↦
      let (among, is_start) = last_started-Among es id q f in
      let same : q ≡ r = ground arith in
      (
        inr (subst (λ x. Among x es) same among),
        subst (λ x. is_started x.status ≡ true) same is_start,
      )
]
  where
    here :
        (is_started e.fields.status ≡ true) × (e.fields ≡ r)
        → Among r (e ∷ es) × (is_started r.status ≡ true)
    here (a, b) = (inl (sym b), subst (λ x. is_started x.status ≡ true) b a)

module _ (sha256 : Sha) where
  -- What an operation does: nothing, or one record is appended, which ends no tool use or has its
  -- start in the ledger.
  data Extends (s : Ledger) : Ledger → Type 0 where
    kept : Extends s s
    appends :
        (r : DelegationRecord)
        → (is_ended r.status ≡ false) ⊎ Start s.records r
        → Extends s (after s (append_record sha256 delegation_json s r))

  completion-Start :
      (s t : Ledger) (input : EndInput) (at : String) (e : Entry DelegationRecord)
      → append_completion sha256 s input at ≡ some (t, e)
      → Start s.records e.fields
  completion-Start s t input at e h =
      let c = append_completion-Completes sha256 s t input at e h in
      let (among, is_start) = last_started-Among s.records input.tool_use_id c.start c.found in
      record {
        start = c.start;
        among = among;
        is_start = is_start;
        same_use = c.same_use ∙ sym (last_started-id s.records input.tool_use_id c.start c.found);
        same_session = c.same_session;
        same_prompt = c.same_prompt;
        same_role = c.same_role;
        same_task = c.same_task;
        same_scope = c.same_scope;
        same_base = c.same_base;
      }

  append_record-fields :
      (s t : Ledger) (r : DelegationRecord) (e : Entry DelegationRecord)
      → append_record sha256 delegation_json s r ≡ some (t, e)
      → e.fields ≡ r
  unfolding append_record next_entry
  append_record-fields s t r e h = ground arith

  completion-appends :
      (s t : Ledger) (input : EndInput) (at : String) (e : Entry DelegationRecord)
      → append_completion sha256 s input at ≡ some (t, e)
      → append_record sha256 delegation_json s e.fields ≡ some (t, e)
  unfolding append_completion
  completion-appends s t input at e h =
      elim (Option-cases (last_started s.records input.tool_use_id)) [
        | inl n ↦ absurd (ground arith)
        | inr (r, f) ↦
            let wrote : append_record sha256 delegation_json s (ended_record sha256 r input at)
                ≡ some (t, e) =
              ground arith in
            subst (λ x. append_record sha256 delegation_json s x ≡ some (t, e))
              (sym (append_record-fields s t (ended_record sha256 r input at) e wrote)) wrote
      ]

  completion-Extends :
      (s : Ledger) (input : EndInput) (at : String)
      → Extends s (after s (append_completion sha256 s input at))
  completion-Extends s input at = given (append_completion sha256 s input at) refl
    where
      given :
          (o : Option (Ledger × Entry DelegationRecord))
          → append_completion sha256 s input at ≡ o
          → Extends s (after s o)
      given none h = kept
      given (some (t, e)) h =
          subst (Extends s) (ap (after s) (completion-appends s t input at e h))
            (appends e.fields (inr (completion-Start s t input at e h)))

  perform-Extends : (s : Ledger) (o : Operation) → Extends s (perform sha256 s o)
  unfolding perform append_started append_invalid
  perform-Extends s (starts input at) =
      appends (started_record sha256 input at) (inl (unfold started_record in refl))
  perform-Extends s (ends input at) = completion-Extends s input at
  perform-Extends s (rejects input detail now) =
      appends (invalid_record sha256 input detail now) (inl (unfold invalid_record in refl))
  perform-Extends s (stops session prompt reason now) =
      appends (stop_record session prompt reason now) (inl (unfold stop_record in refl))

  -- A ledger whose chain verifies and that backs each end.
  abbrev pub Sound : Ledger → Type 0
  Sound s = (verify_chain sha256 delegation_json s ≡ true) × Backed s.records

  Extends-Sound : (s t : Ledger) → Extends s t → Sound s → Sound t
  Extends-Sound s _ kept sound = sound
  Extends-Sound s _ (appends r new) (verified, backed) =
      let a = append_record-Appends sha256 delegation_json s r verified in
      subst (λ o. Sound (after s o)) (sym a.returns)
        (
          a.verifies,
          subst Backed (sym a.extends) (
              Backed-snoc s.records a.entry backed
                (subst (λ x. (is_ended x.status ≡ false) ⊎ Start s.records x) (sym a.holds) new)),
        )

  perform_all-Sound : (s : Ledger) (os : List Operation) → Sound s → Sound (perform_all sha256 s os)
  unfolding perform_all
  perform_all-Sound s [] sound = sound
  perform_all-Sound s (o ∷ os) sound =
      perform_all-Sound (perform sha256 s o) os
        (Extends-Sound s (perform sha256 s o) (perform-Extends s o) sound)

  -- Whatever is started, completed, rejected and stopped on an empty ledger, its chain verifies, and
  -- each receipt of an end has a STARTED receipt of the same tool use in it, from which it has
  -- session, prompt, role, task, scope and base.
  pub perform_all-empty_ledger-Sound :
      (os : List Operation) → Sound (perform_all sha256 empty_ledger os)
  unfolding verify_chain chain_from head_matches
  perform_all-empty_ledger-Sound os = perform_all-Sound empty_ledger os (refl, λ r x. absurd x)
