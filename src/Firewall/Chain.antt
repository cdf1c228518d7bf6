-- ===== src/Firewall/Chain.antt =====
-- The hash chain of tools/orchestrator-firewall/src/ledger.mjs, over records whose other fields
-- are of any type.
-- A store is what `readRecords` and the head file give. The fields of a record are its own: they
-- bear none of the keys `seq`, `prevHash` and `recordHash`. On such records `canonicalJson`
-- (tools/orchestrator-firewall/src/delegation.mjs) writes the text that `canonicalizeJson` writes.
pub mod Evidence
use mihver.Prelude.{
  ℕ, suc, String, Bool, true, false, ◌&&◌, Option, none, some, List, [], ◌∷◌, ◌++◌, ◌==◌, length,
  eqb, if◌then◌else◌,
}
use mihver.Json.{Json, nat, str, object, canonicalize_json}
use mihver.Council.Hashes.{Sha}

pub record Entry (A : Type 0) : Type 0 where
  pub seq : ℕ
  pub prev_hash : String
  pub fields : A
  pub record_hash : String

-- The adjacent head file: missing, `${count}:${hash}`, or any other text.
pub data Head : Type 0 where
  missing other_text : Head
  anchor : ℕ → String → Head

pub record Store (A : Type 0) : Type 0 where
  pub records : List (Entry A)
  pub head : Head

unfoldable pub head_matches : Head → ℕ → String → Bool
head_matches missing n previous = eqb n 0
head_matches other_text n previous = false
head_matches (anchor count hash) n previous = eqb count n && hash == previous

-- `seq ? records[seq - 1].recordHash : "GENESIS"`
unfoldable pub last_hash : {A : Type 0} → String → List (Entry A) → String
last_hash previous [] = previous
last_hash previous (r ∷ rs) = last_hash r.record_hash rs

module _ {A : Type 0} (sha256 : Sha) (json : A → List (String × Json)) where
  -- The digest of the record without its hash.
  unfoldable pub hash_unsigned : ℕ → String → A → String
  hash_unsigned seq prev fields =
      sha256 (canonicalize_json (object (("seq", nat seq) ∷ ("prevHash", str prev) ∷ json fields)))

  -- The loop over the records: the hash of the last one, or `none` at a mismatch.
  unfoldable pub chain_from : ℕ → String → List (Entry A) → Option String
  chain_from index previous [] = some previous
  chain_from index previous (r ∷ rs) =
      let rest = chain_from (suc index) r.record_hash rs in
      if eqb r.seq index
        && r.prev_hash == previous
        && r.record_hash == hash_unsigned r.seq r.prev_hash r.fields
      then rest
      else none

  -- `verifyChain`
  unfoldable pub verify_chain : Store A → Bool
  verify_chain s = elim (chain_from 0 "GENESIS" s.records) [
    | none ↦ false
    | some previous ↦ head_matches s.head (length s.records) previous
  ]

  unfoldable pub next_entry : List (Entry A) → A → Entry A
  next_entry rs fields =
      let prev = last_hash "GENESIS" rs in
      record {
        seq = length rs;
        prev_hash = prev;
        fields = fields;
        record_hash = hash_unsigned (length rs) prev fields;
      }

  -- The two writes of `appendRecord`, to the ledger and to its head.
  unfoldable pub write_record : Store A → Entry A → Store A
  write_record s e = record s { records = s.records ++ e ∷ [] }

  unfoldable pub write_head : Store A → Entry A → Store A
  write_head s e = record s { head = anchor (suc e.seq) e.record_hash }

  -- `appendRecord`; `none` if it throws.
  unfoldable pub append_record : Store A → A → Option (Store A × Entry A)
  append_record s fields =
      let e = next_entry s.records fields in
      if verify_chain s then some (write_head (write_record s e) e, e) else none
