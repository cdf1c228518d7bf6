-- ===== src/Firewall/Delegation/Header.antt =====
-- What the header of an accepted delegation says: tools/orchestrator-firewall/src/delegation.mjs.
use mihver.Firewall.Delegation.{
  Meta, roles, meta_of_fields, meta_of, decode_payload, check_canonical, parse_header,
  parse_delegation, delegated, metadata_refused, decoded_as, first_of, first_line,
  is_hex40_any_case, spelled, value_at, text_value, base_sha_of,
}
use mihver.Firewall.Machine.{Machine}
use mihver.Council.Hashes.{Sha}
use mihver.Json.{Json, units, canonicalize_json, null, bool, nat, num, str, arr, obj, Fields}
use mihver.Prelude.{
  ◌≡◌, refl, sym, ap, subst, ◌∙◌, ◌⊎◌, inl, inr, ℕ, Bool, true, false, Option, none, some, List, [],
  ◌∷◌, arith, String, Bool-cases, ◌==◌, eq_iff, eqb_iff, nonempty, includes, some-injective, ◌&&◌,
  if◌then◌else◌, same_codes, codes, ◌++◌, strip_prefix, strip_prefix-codes, Option-cases,
}

-- How the value and its text come from a payload: as it stands, or, if it does not parse, decoded.
pub data Decodes (m : Machine) (payload : String) : Json → String → Type 0 where
  plain : {value : Json} → m.parse_json payload ≡ some value → Decodes m payload value payload
  base64url :
      {value : Json}
      → m.parse_json payload ≡ none
      → m.parse_json (m.base64url_decode payload) ≡ some value
      → Decodes m payload value (m.base64url_decode payload)

-- The metadata are the fields of the value.
pub record FieldsOf (fields : Fields) (meta : Meta) : Type 0 where
  pub version : value_at "protocolVersion" fields ≡ some (str "1")
  pub task : value_at "taskId" fields ≡ some (str meta.task_id)
  pub role : value_at "role" fields ≡ some (str meta.role)
  pub scope : value_at "scope" fields ≡ some (str meta.scope)
  pub base : value_at "baseSha" fields ≡ some meta.base_sha
  pub base_digits : is_hex40_any_case (spelled meta.base_sha) ≡ true
  pub known_role :
      (meta.role ≡ "SCOUT")
      ⊎ (meta.role ≡ "IMPLEMENTER")
      ⊎ (meta.role ≡ "REVIEWER")
      ⊎ (meta.role ≡ "VERIFIER")
  pub named_task : nonempty meta.task_id ≡ true
  pub named_scope : nonempty meta.scope ≡ true

-- An accepted prompt: the prefix and a payload are its first line, the payload is that of an object
-- whose canonical text it is, and the metadata are its fields.
pub record Header (m : Machine) (sha256 : Sha) (prompt : String) (meta : Meta) (scope_hash : String)
    : Type 0 where
  pub payload : String
  pub headed : codes (first_line prompt) ≡ codes "MIHVER_DELEGATION_V1:" ++ codes payload
  pub fields : Fields
  pub decoded : String
  pub decodes : Decodes m payload (obj fields) decoded
  pub canonical : canonicalize_json (obj fields) ≡ units decoded
  pub fields_of : FieldsOf fields meta
  pub hashed : scope_hash ≡ sha256 (units meta.scope)

same_codes-eq : (xs ys : List ℕ) → same_codes xs ys ≡ true → xs ≡ ys
unfolding same_codes
same_codes-eq [] [] h = refl
same_codes-eq [] (y ∷ ys) h = absurd (ground arith)
same_codes-eq (x ∷ xs) [] h = absurd (ground arith)
same_codes-eq (x ∷ xs) (y ∷ ys) h = ground (arith, same_codes-eq xs ys, eqb_iff x y)

text_value-str : (o : Option Json) (t : String) → text_value o ≡ some t → o ≡ some (str t)
unfolding text_value
text_value-str none t h = absurd (ground arith)
text_value-str (some null) t h = absurd (ground arith)
text_value-str (some (bool b)) t h = absurd (ground arith)
text_value-str (some (nat n)) t h = absurd (ground arith)
text_value-str (some (num n)) t h = absurd (ground arith)
text_value-str (some (str s)) t h = ground arith
text_value-str (some (arr items)) t h = absurd (ground arith)
text_value-str (some (obj fields)) t h = absurd (ground arith)

base_sha_of-some :
    (o : Option Json) (b : Json)
    → base_sha_of o ≡ some b
    → (o ≡ some b) × (is_hex40_any_case (spelled b) ≡ true)
unfolding base_sha_of
base_sha_of-some none b h = absurd (ground arith)
base_sha_of-some (some v) b h = elim (Bool-cases (is_hex40_any_case (spelled v))) [
  | inl e ↦
      let same : v ≡ b = ground arith in
      (ap some same, subst (λ x. is_hex40_any_case (spelled x) ≡ true) same e)
  | inr e ↦ absurd (ground arith)
]

known :
    (r : String)
    → includes roles r ≡ true
    → (r ≡ "SCOUT") ⊎ (r ≡ "IMPLEMENTER") ⊎ (r ≡ "REVIEWER") ⊎ (r ≡ "VERIFIER")
unfolding includes
known r h =
    ground
      (arith, eq_iff "SCOUT" r, eq_iff "IMPLEMENTER" r, eq_iff "REVIEWER" r, eq_iff "VERIFIER" r)

-- The parts of metadata that are put together.
record Parts (version task role scope : Option String) (base : Option Json) (meta : Meta)
    : Type 0 where
  is_version : version ≡ some "1"
  is_task : task ≡ some meta.task_id
  is_role : role ≡ some meta.role
  is_scope : scope ≡ some meta.scope
  is_base : base ≡ some meta.base_sha
  role_known : includes roles meta.role ≡ true
  task_named : nonempty meta.task_id ≡ true
  scope_named : nonempty meta.scope ≡ true

meta_of_fields-Parts :
    (version task role scope : Option String) (base : Option Json) (meta : Meta)
    → meta_of_fields version task role scope base ≡ some meta
    → Parts version task role scope base meta
unfolding meta_of_fields
meta_of_fields-Parts none task role scope base meta h = absurd (ground arith)
meta_of_fields-Parts (some v) none role scope base meta h = absurd (ground arith)
meta_of_fields-Parts (some v) (some t) none scope base meta h = absurd (ground arith)
meta_of_fields-Parts (some v) (some t) (some r) none base meta h = absurd (ground arith)
meta_of_fields-Parts (some v) (some t) (some r) (some s) none meta h = absurd (ground arith)
meta_of_fields-Parts (some v) (some t) (some r) (some s) (some b) meta h =
    accepted (v == "1" && nonempty t && includes roles r && nonempty s) refl h
  where
    accepted :
        (c : Bool)
        → (v == "1" && nonempty t && includes roles r && nonempty s) ≡ c
        → (if c then some (record { task_id = t; role = r; scope = s; base_sha = b }) else none)
          ≡ some meta
        → Parts (some v) (some t) (some r) (some s) (some b) meta
    accepted false e k = absurd (ground arith)
    accepted true e k =
        subst (Parts (some v) (some t) (some r) (some s) (some b)) (some-injective _ _ k) (record {
          is_version = ap some ((eq_iff v "1").0 (ground arith));
          is_task = refl;
          is_role = refl;
          is_scope = refl;
          is_base = refl;
          role_known = ground arith;
          task_named = ground arith;
          scope_named = ground arith;
        })

-- The value of accepted metadata.
record Object (v : Json) (meta : Meta) : Type 0 where
  fields : Fields
  is_object : v ≡ obj fields
  fields_of : FieldsOf fields meta

meta_of-Object : (v : Json) (meta : Meta) → meta_of v ≡ some meta → Object v meta
unfolding meta_of
meta_of-Object null meta h = absurd (ground arith)
meta_of-Object (bool b) meta h = absurd (ground arith)
meta_of-Object (nat n) meta h = absurd (ground arith)
meta_of-Object (num t) meta h = absurd (ground arith)
meta_of-Object (str s) meta h = absurd (ground arith)
meta_of-Object (arr items) meta h = absurd (ground arith)
meta_of-Object (obj fields) meta h =
    let p = meta_of_fields-Parts _ _ _ _ _ meta h in
    let (base, digits) = base_sha_of-some (value_at "baseSha" fields) meta.base_sha p.is_base in
    record {
      fields = fields;
      is_object = refl;
      fields_of = record {
        version = text_value-str _ "1" p.is_version;
        task = text_value-str _ meta.task_id p.is_task;
        role = text_value-str _ meta.role p.is_role;
        scope = text_value-str _ meta.scope p.is_scope;
        base = base;
        base_digits = digits;
        known_role = known meta.role p.role_known;
        named_task = p.task_named;
        named_scope = p.scope_named;
      };
    }

decoded_as-some :
    (d e : String) (o : Option Json) (v : Json)
    → decoded_as d o ≡ some (v, e)
    → (o ≡ some v) × (d ≡ e)
unfolding decoded_as
decoded_as-some d e none v h = absurd (ground arith)
decoded_as-some d e (some w) v h =
    let same = some-injective _ _ h in (ap (λ q. some q.0) same, ap (λ q. q.1) same)

module _ (m : Machine) (sha256 : Sha) where
  decode_payload-Decodes :
      (payload : String) (v : Json) (d : String)
      → decode_payload m payload ≡ some (v, d)
      → Decodes m payload v d
  unfolding decode_payload first_of
  decode_payload-Decodes payload v d h = elim (Option-cases (m.parse_json payload)) [
    | inr (w, e) ↦
        let (parsed, same) =
          decoded_as-some payload d (m.parse_json payload) v (unfold decoded_as in ground arith) in
        subst (Decodes m payload v) same (plain parsed)
    | inl e ↦
        let (parsed, same) =
          decoded_as-some (m.base64url_decode payload) d (m.parse_json (m.base64url_decode payload))
            v (unfold decoded_as in ground arith) in
        subst (Decodes m payload v) same (base64url e parsed)
  ]

  check_canonical-Header :
      (prompt payload : String) (v : Json) (decoded : String) (o : Option Meta) (meta : Meta)
      (scope_hash : String)
      → codes (first_line prompt) ≡ codes "MIHVER_DELEGATION_V1:" ++ codes payload
      → Decodes m payload v decoded
      → meta_of v ≡ o
      → check_canonical sha256 m v decoded o ≡ delegated meta scope_hash
      → Header m sha256 prompt meta scope_hash
  unfolding check_canonical
  check_canonical-Header prompt payload v decoded none meta scope_hash headed decodes got h =
      absurd (ground arith)
  check_canonical-Header prompt payload v decoded (some x) meta scope_hash headed decodes got h =
      elim (Bool-cases (same_codes (canonicalize_json v) (units decoded))) [
        | inr e ↦ absurd (ground arith)
        | inl e ↦
            let same : x ≡ meta = ground arith in
            let hashed : sha256 (units x.scope) ≡ scope_hash = ground arith in
            let o : Object v meta = subst (Object v) same (meta_of-Object v x got) in
            record {
              payload = payload;
              headed = headed;
              fields = o.fields;
              decoded = decoded;
              decodes = subst (λ w. Decodes m payload w decoded) o.is_object decodes;
              canonical =
                  subst (λ w. canonicalize_json w ≡ units decoded) o.is_object
                    (same_codes-eq (canonicalize_json v) (units decoded) e);
              fields_of = o.fields_of;
              hashed = sym hashed ∙ ap (λ (y : Meta). sha256 (units y.scope)) same;
            }
      ]

  parse_header-Header :
      (prompt : String) (payload : Option String) (meta : Meta) (scope_hash : String)
      → strip_prefix "MIHVER_DELEGATION_V1:" (first_line prompt) ≡ payload
      → parse_header sha256 m payload ≡ delegated meta scope_hash
      → Header m sha256 prompt meta scope_hash
  unfolding parse_header
  parse_header-Header prompt none meta scope_hash stripped h = absurd (ground arith)
  parse_header-Header prompt (some payload) meta scope_hash stripped h =
      given (decode_payload m payload) refl h
    where
      given :
          (o : Option (Json × String))
          → decode_payload m payload ≡ o
          → (elim o [
            | none ↦ metadata_refused "payload is not JSON or base64url JSON"
            | some vd ↦ check_canonical sha256 m vd.0 vd.1 (meta_of vd.0)
          ])
            ≡ delegated meta scope_hash
          → Header m sha256 prompt meta scope_hash
      given none e k = absurd (ground arith)
      given (some (v, d)) e k =
          check_canonical-Header prompt payload v d (meta_of v) meta scope_hash
            (strip_prefix-codes "MIHVER_DELEGATION_V1:" (first_line prompt) payload stripped)
            (decode_payload-Decodes payload v d e) refl k

  -- An accepted prompt begins with the line of the prefix and a payload. The payload is, as it stands
  -- or, if it does not parse, decoded from base64url, the canonical text of an object, and the
  -- metadata are that object's fields: the protocol version 1, a task and a scope that are not empty,
  -- one of the four roles, and a base commit that is spelled with forty hexadecimal digits. The hash
  -- given is that of the scope.
  pub parse_delegation-Header :
      (prompt : String) (meta : Meta) (scope_hash : String)
      → parse_delegation sha256 m (some prompt) ≡ delegated meta scope_hash
      → Header m sha256 prompt meta scope_hash
  unfolding parse_delegation
  parse_delegation-Header prompt meta scope_hash h =
      parse_header-Header prompt (strip_prefix "MIHVER_DELEGATION_V1:" (first_line prompt)) meta
        scope_hash refl h
