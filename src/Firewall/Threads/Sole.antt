-- ===== src/Firewall/Threads/Sole.antt =====
-- Which binding of a thread is found.
use mihver.Prelude.{
  ◌∙◌, sym, ap, subst, String, ◌≡◌, refl, inl, inr, Bool, true, Option, none, some, List, [], ◌∷◌,
  ◌++◌, arith, keep, any, find, any-append, eq_iff, Bool-cases, Option-cases, if◌then◌else◌, All,
}
use mihver.Council.Hashes.{Sha}
use mihver.Firewall.Chain.{
  missing, chain_from, head_matches, Entry, Store, verify_chain, append_record,
}
use mihver.Firewall.Chain.Evidence.{Appends, append_record-Appends}
use mihver.Firewall.Threads.{
  Binding, BindingStatus, unbound, bound, conflict, ThreadRecord, binding_json, is_conflict,
  claims_thread, names_thread, of_thread, claims, find_in, append_thread_binding,
  find_thread_binding, given, as_read, append_thread_record, sandbox_as_read, store_as_read,
}

-- What a list of bindings says of one thread.
pub data Resolution : Type 0 where
  unknown contested : Resolution
  sole : Binding → Resolution

abbrev again : Resolution → Binding → Resolution
again unknown b = sole b
again contested b = contested
again (sole a) b = contested

abbrev pub resolve : String → Resolution → Binding → Resolution
resolve t ρ b = if names_thread t b.thread_id then again ρ b else ρ

abbrev pub resolve_all : String → Resolution → List Binding → Resolution
resolve_all t ρ [] = ρ
resolve_all t ρ (b ∷ bs) = resolve_all t (resolve t ρ b) bs

abbrev pub answer : Resolution → Option ThreadRecord
answer unknown = none
answer contested = none
answer (sole b) = some (record { binding = b; status = bound })

abbrev pub no_bindings : Store ThreadRecord
no_bindings = record { records = []; head = missing }

-- The records of one thread, against its resolution.
abbrev Matching : List (Entry ThreadRecord) → Resolution → Type 0
Matching es unknown = es ≡ []
Matching es contested = any (λ e. is_conflict e.fields.status) es ≡ true
Matching es (sole b) =
    (e : Entry ThreadRecord) × (es ≡ e ∷ []) × (e.fields ≡ record { binding = b; status = bound })

abbrev new_status : Option String → List (Entry ThreadRecord) → BindingStatus
new_status none rs = unbound
new_status (some u) rs = if any (claims u) rs then conflict else bound

keep-snoc :
    (t : String) (rs : List (Entry ThreadRecord)) (e : Entry ThreadRecord)
    → keep (of_thread t) (rs ++ e ∷ [])
      ≡ keep (of_thread t) rs ++ (if of_thread t e then e ∷ [] else [])
unfolding keep
keep-snoc t [] e = refl
keep-snoc t (r ∷ rs) e = ground (arith, keep-snoc t rs e)

append_nil : (rs : List (Entry ThreadRecord)) → rs ++ [] ≡ rs
append_nil [] = refl
append_nil (r ∷ rs) = ap (λ xs. r ∷ xs) (append_nil rs)

any-claims :
    (t : String) (rs : List (Entry ThreadRecord))
    → any (claims t) rs ≡ any (λ e. claims_thread e.fields.status) (keep (of_thread t) rs)
unfolding any keep claims
any-claims t [] = refl
any-claims t (r ∷ rs) = ground (arith, any-claims t rs)

find_in-answer :
    (es : List (Entry ThreadRecord)) (ρ : Resolution) → Matching es ρ → find_in es ≡ answer ρ
unfolding find_in any find
find_in-answer es unknown h = rw h refl
find_in-answer es contested h = rw h refl
find_in-answer es (sole b) (e, h, k) = rw (h, k) refl

Matching-again :
    (es : List (Entry ThreadRecord)) (e : Entry ThreadRecord) (ρ : Resolution) (b : Binding)
    → e.fields ≡ record {
      binding = b;
      status = if any (λ x. claims_thread x.fields.status) es then conflict else bound;
    }
    → Matching es ρ
    → Matching (es ++ e ∷ []) (again ρ b)
unfolding any
Matching-again es e unknown b k h = (
  e,
  ap (λ xs. xs ++ e ∷ []) h,
  subst
      (λ xs. e.fields ≡ record {
        binding = b;
        status = if any (λ x. claims_thread x.fields.status) xs then conflict else bound;
      })
      h k,
)
Matching-again es e contested b k h =
    any-append (λ x. is_conflict x.fields.status) es (e ∷ []) ∙ (rw h refl)
Matching-again es e (sole a) b k (x, h, l) =
    let claimed : any (λ y. claims_thread y.fields.status) es ≡ true = rw (h, l) refl in
    let conflicts : e.fields.status ≡ conflict = ap (λ r. r.status) k ∙ (rw claimed refl) in
    rw (h, l, conflicts) refl

named : (t u : String) → names_thread t (some u) ≡ true → u ≡ t
unfolding names_thread
named t u h = (eq_iff u t).0 h

new_status-named :
    (t : String) (o : Option String) (rs : List (Entry ThreadRecord))
    → names_thread t o ≡ true
    → new_status o rs ≡ (
        if any (λ x. claims_thread x.fields.status) (keep (of_thread t) rs)
        then conflict
        else bound)
new_status-named t none rs h = absurd (unfold names_thread in ground arith)
new_status-named t (some u) rs h = rw (named t u h, any-claims t rs) refl

-- A new record keeps the match.
Matching-resolve :
    (t : String) (rs : List (Entry ThreadRecord)) (e : Entry ThreadRecord) (ρ : Resolution)
    (b : Binding)
    → e.fields ≡ record { binding = b; status = new_status b.thread_id rs }
    → Matching (keep (of_thread t) rs) ρ
    → Matching (keep (of_thread t) (rs ++ e ∷ [])) (resolve t ρ b)
unfolding of_thread
Matching-resolve t rs e ρ b k h = elim (Bool-cases (names_thread t b.thread_id)) [
  | inl n ↦
      rw (n, keep-snoc t rs e, here n)
        (Matching-again (keep (of_thread t) rs) e ρ b
          (k
            ∙ ap (λ x. let y : ThreadRecord = record { binding = b; status = x } in y)
                (new_status-named t b.thread_id rs n))
          h)
  | inr n ↦ rw (n, keep-snoc t rs e, here n, append_nil (keep (of_thread t) rs)) h
]
  where
    here : {x : Bool} → names_thread t b.thread_id ≡ x → of_thread t e ≡ x
    here n = ap (λ r. names_thread t r.binding.thread_id) k ∙ n

-- A binding whose sandbox was given: its line holds all that was hashed.
pub data HasSandbox (b : Binding) : Type 0 where
  has : (s : String) → b.sandbox ≡ given s → HasSandbox b

as_read-given : (e : Entry ThreadRecord) → HasSandbox e.fields.binding → as_read e ≡ e
unfolding as_read sandbox_as_read
as_read-given e (has s h) = rw h refl

module _ (sha256 : Sha) where
  abbrev pub bind_all : Store ThreadRecord → List Binding → Option (Store ThreadRecord)
  bind_all s [] = some s
  bind_all s (b ∷ bs) = elim (append_thread_binding sha256 s b) [
    | none ↦ none
    | some (next, e) ↦ bind_all next bs
  ]

  bind_all-next :
      (s next : Store ThreadRecord) (e : Entry ThreadRecord) (b : Binding) (bs : List Binding)
      → append_thread_binding sha256 s b ≡ some (next, e)
      → bind_all s (b ∷ bs) ≡ bind_all next bs
  bind_all-next s next e b bs h = rw (h, bind_all) refl

  append_thread_binding-eq :
      (s : Store ThreadRecord) (b : Binding)
      → verify_chain sha256 binding_json s ≡ true
      → append_thread_binding sha256 s b
        ≡ append_thread_record sha256 s
            (record { binding = b; status = new_status b.thread_id s.records })
  append_thread_binding-eq s b h =
      unfold append_thread_binding in
      elim (Option-cases b.thread_id) [
        | inl e ↦ rw e refl
        | inr (u, e) ↦
            rw (e, h)
              (elim (Bool-cases (any (claims u) s.records)) [
                | inl f ↦ rw f refl
                | inr f ↦ rw f refl
              ])
      ]

  -- A record whose sandbox was given is read as it was appended.
  append_thread_record-given :
      (s after : Store ThreadRecord) (e : Entry ThreadRecord) (r : ThreadRecord)
      → HasSandbox r.binding
      → append_record sha256 binding_json s r ≡ some (after, e)
      → after.records ≡ s.records ++ e ∷ []
      → e.fields ≡ r
      → append_thread_record sha256 s r ≡ some (after, e)
  unfolding append_thread_record store_as_read
  append_thread_record-given s after e r g h x k =
      ap (store_as_read s) h
      ∙ ap (λ rs. let y : Store ThreadRecord = record after { records = rs } in some (y, e))
          (ap (λ y. s.records ++ y ∷ [])
              (as_read-given e (subst (λ y. HasSandbox y.binding) (sym k) g))
            ∙ sym x)

  -- What is found after a list of bindings.
  pub record Answers (s : Store ThreadRecord) (bs : List Binding) (t : String) (ρ : Resolution)
      : Type 0 where
    pub after : Store ThreadRecord
    pub binds : bind_all s bs ≡ some after
    pub finds : find_thread_binding sha256 after t ≡ some (answer (resolve_all t ρ bs))

  answers :
      (s : Store ThreadRecord) (bs : List Binding) (t : String) (ρ : Resolution)
      → All HasSandbox bs
      → verify_chain sha256 binding_json s ≡ true
      → Matching (keep (of_thread t) s.records) ρ
      → Answers s bs t ρ
  answers s [] t ρ g h m = record {
    after = s;
    binds = refl;
    finds =
        unfold find_thread_binding in
        rw (h, find_in-answer (keep (of_thread t) s.records) ρ m) refl;
  }
  answers s (b ∷ bs) t ρ (here, there) h m =
      let step : Appends sha256 binding_json s
          (record { binding = b; status = new_status b.thread_id s.records }) =
        append_record-Appends sha256 binding_json s
          (record { binding = b; status = new_status b.thread_id s.records }) h in
      let rest : Answers step.after bs t (resolve t ρ b) =
        answers step.after bs t (resolve t ρ b) there step.verifies (
          subst (λ rs. Matching (keep (of_thread t) rs) (resolve t ρ b)) (sym step.extends)
            (Matching-resolve t s.records step.entry ρ b step.holds m)) in
      record {
        after = rest.after;
        binds =
            bind_all-next s step.after step.entry b bs (
              append_thread_binding-eq s b h
              ∙ append_thread_record-given s step.after step.entry
                  (record { binding = b; status = new_status b.thread_id s.records }) here
                  step.returns step.extends step.holds)
            ∙ rest.binds;
        finds = rest.finds;
      }

  -- A list of bindings, each with a sandbox that was given, can be written to an empty store, and a
  -- thread is found afterwards only if exactly one of them names it: then that binding is found. No
  -- later binding of a contested thread makes it found again.
  pub find_thread_binding-Answers :
      (bs : List Binding) (t : String) → All HasSandbox bs → Answers no_bindings bs t unknown
  find_thread_binding-Answers bs t g =
      answers no_bindings bs t unknown g (unfold verify_chain chain_from head_matches in refl)
        (unfold keep in refl)
