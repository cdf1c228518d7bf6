-- ===== src/Firewall/Chain/Evidence.antt =====
-- What the hash chain keeps and what it detects.
use mihver.Prelude.{
  Bool-cases, inl, inr, none, ◌++◌, ℕ, suc, ◌+◌, ◌≡◌, refl, ap, String, true, some, List, [], ◌∷◌,
  arith, length, eq_iff, Option-cases, eq_refl,
}
use mihver.Json.{Json}
use mihver.Council.Hashes.{Sha}
use mihver.Firewall.Chain.{
  missing, other_text, anchor, Head, Entry, Store, head_matches, last_hash, hash_unsigned,
  chain_from, verify_chain, append_record, next_entry, write_head, write_record,
}

module _ {A : Type 0} (sha256 : Sha) (json : A → List (String × Json)) where
  chain_from-last :
      (index : ℕ) (previous last : String) (rs : List (Entry A))
      → chain_from sha256 json index previous rs ≡ some last
      → last_hash previous rs ≡ last
  unfolding chain_from last_hash
  chain_from-last index previous last [] h = ground arith
  chain_from-last index previous last (r ∷ rs) h =
      chain_from-last (suc index) r.record_hash last rs (ground arith)

  chain_from-snoc :
      (index : ℕ) (previous last : String) (rs : List (Entry A)) (e : Entry A)
      → chain_from sha256 json index previous rs ≡ some last
      → e.seq ≡ index + length rs
      → e.prev_hash ≡ last
      → e.record_hash ≡ hash_unsigned sha256 json e.seq e.prev_hash e.fields
      → chain_from sha256 json index previous (rs ++ e ∷ []) ≡ some e.record_hash
  unfolding chain_from
  chain_from-snoc index previous last [] e h n p k = ground (
    arith,
    eq_iff e.prev_hash previous,
    eq_iff e.record_hash (hash_unsigned sha256 json e.seq e.prev_hash e.fields),
  )
  chain_from-snoc index previous last (r ∷ rs) e h n p k =
      ground (arith, chain_from-snoc (suc index) r.record_hash last rs e)

  length-snoc : (rs : List (Entry A)) (e : Entry A) → length (rs ++ e ∷ []) ≡ suc (length rs)
  length-snoc [] e = refl
  length-snoc (r ∷ rs) e = ap suc (length-snoc rs e)

  verified :
      (s : Store A)
      → verify_chain sha256 json s ≡ true
      → (last : String) × (chain_from sha256 json 0 "GENESIS" s.records ≡ some last)
        × (head_matches s.head (length s.records) last ≡ true)
  unfolding verify_chain
  verified s h = elim (Option-cases (chain_from sha256 json 0 "GENESIS" s.records)) [
    | inl e ↦ absurd (ground arith)
    | inr (last, e) ↦ (last, e, ground arith)
  ]

  verify_chain-of :
      (s : Store A) (last : String)
      → chain_from sha256 json 0 "GENESIS" s.records ≡ some last
      → head_matches s.head (length s.records) last ≡ true
      → verify_chain sha256 json s ≡ true
  unfolding verify_chain
  verify_chain-of s last h k = ground arith

  -- An appended record stands last in a chain that verifies.
  pub record Appends (s : Store A) (fields : A) : Type 0 where
    pub after : Store A
    pub entry : Entry A
    pub returns : append_record sha256 json s fields ≡ some (after, entry)
    pub verifies : verify_chain sha256 json after ≡ true
    pub extends : after.records ≡ s.records ++ entry ∷ []
    pub holds : entry.fields ≡ fields

  extended :
      (s : Store A) (fields : A)
      → verify_chain sha256 json s ≡ true
      → chain_from sha256 json 0 "GENESIS"
          (s.records ++ next_entry sha256 json s.records fields ∷ [])
        ≡ some (next_entry sha256 json s.records fields).record_hash
  extended s fields h =
      let (last, chain, head) = verified s h in
      chain_from-snoc 0 "GENESIS" last s.records (next_entry sha256 json s.records fields) chain
        (unfold next_entry in omega arith)
        (unfold next_entry in chain_from-last 0 "GENESIS" last s.records chain)
        (unfold next_entry in refl)

  -- To a ledger that verifies a record can be appended: nothing is thrown, the records before it
  -- are kept, it holds the given fields, and the ledger verifies again.
  pub append_record-Appends :
      (s : Store A) (fields : A) → verify_chain sha256 json s ≡ true → Appends s fields
  append_record-Appends s fields h =
      let e : Entry A = next_entry sha256 json s.records fields in
      record {
        after = write_head sha256 json (write_record sha256 json s e) e;
        entry = e;
        returns = unfold append_record in rw h refl;
        verifies =
            verify_chain-of (write_head sha256 json (write_record sha256 json s e) e) e.record_hash
              (unfold write_head write_record in extended s fields h)
              (unfold write_head write_record head_matches next_entry in
                ground (
                  arith,
                  length-snoc s.records (next_entry sha256 json s.records fields),
                  eq_refl (next_entry sha256 json s.records fields).record_hash,
                ));
        extends = unfold write_record write_head in refl;
        holds = unfold next_entry in refl;
      }

  -- Two ledgers beside the same head that both verify have as many records, and the same last hash:
  -- dropping complete records at the end is detected.
  verify_chain-last :
      (s : Store A) (rs : List (Entry A))
      → verify_chain sha256 json s ≡ true
      → verify_chain sha256 json (record s { records = rs }) ≡ true
      → (length rs ≡ length s.records) × (last_hash "GENESIS" rs ≡ last_hash "GENESIS" s.records)
  verify_chain-last s rs h k =
      let (last, chain, head) = verified s h in
      let (last', chain', head') = verified (record s { records = rs }) k in
      same_head s.head s.records rs last last' head head'
        (chain_from-last 0 "GENESIS" last s.records chain)
        (chain_from-last 0 "GENESIS" last' rs chain')
    where
      same_head :
          (a : Head) (xs ys : List (Entry A)) (x y : String)
          → head_matches a (length xs) x ≡ true
          → head_matches a (length ys) y ≡ true
          → last_hash "GENESIS" xs ≡ x
          → last_hash "GENESIS" ys ≡ y
          → (length ys ≡ length xs) × (last_hash "GENESIS" ys ≡ last_hash "GENESIS" xs)
      same_head missing [] [] x y p q e f = (refl, refl)
      same_head missing (z ∷ xs) ys x y p q e f = absurd (unfold head_matches in ground arith)
      same_head missing [] (z ∷ ys) x y p q e f = absurd (unfold head_matches in ground arith)
      same_head other_text xs ys x y p q e f = absurd (unfold head_matches in ground arith)
      same_head (anchor n w) xs ys x y p q e f =
          unfold head_matches in ground (arith, eq_iff w x, eq_iff w y)

  -- A crash between the two writes of an append leaves a ledger to which nothing can be appended.
  append_record-interrupted :
      (s : Store A) (fields more : A)
      → verify_chain sha256 json s ≡ true
      → append_record sha256 json
          (write_record sha256 json s (next_entry sha256 json s.records fields))
          more
        ≡ none
  append_record-interrupted s fields more h =
      unfold append_record in
      elim (Bool-cases (
        verify_chain sha256 json
          (write_record sha256 json s (next_entry sha256 json s.records fields)))) [
            | inr e ↦ rw e refl
            | inl e ↦ absurd (
                let same : (length (s.records ++ next_entry sha256 json s.records fields ∷ [])
                      ≡ length s.records)
                    × (last_hash "GENESIS"
                          (s.records ++ next_entry sha256 json s.records fields ∷ [])
                        ≡ last_hash "GENESIS" s.records) =
                  verify_chain-last s (s.records ++ next_entry sha256 json s.records fields ∷ []) h
                    (unfold write_record in e) in
                omega
                  (arith, same.0, length-snoc s.records (next_entry sha256 json s.records fields)))
          ]
