-- ===== src/Publication/Preflight/Guards.antt =====
-- What a passed preflight has established.
use mihver.Prelude.{
  ap, ◌∙◌, ◌≡◌, refl, String, true, false, some, List, [], arith, eq_iff, trim, ◌∷◌, subst,
}
use mihver.Publication.Envelope.{
  RawEnvelope, ShapeError, text_of, is_protected_branch, validate_envelope_shape,
}
use mihver.Publication.Host.{Host, Run, done, Ended}
use mihver.Publication.Inversion.{bind-done, require-done}
use mihver.Publication.Files.Accepted.{AllowedFiles, classify_allowed_files-Accepts}
use mihver.Publication.Fingerprint.{compute_fingerprint}
use mihver.Publication.Preflight.{
  Preflight, files_of, is_accepted, verify_current_branch, verify_pre_publish_head,
  preflight_guards, preflight_core, repository_guards, file_guards, check_fingerprint, FileEntry,
}

accepted-nil : (errors : List ShapeError) → is_accepted errors ≡ true → errors ≡ []
accepted-nil [] h = refl
accepted-nil (e ∷ errors) h = absurd (ground arith)

module _ {W : Type 0} (host : Host W) (dir root : String) where
  -- What has been checked of an envelope when its preflight is passed, and where.
  pub record Guarded (e : RawEnvelope) (p : Preflight) : Type 0 where
    pub well_shaped : validate_envelope_shape (some e) ≡ []
    pub unprotected : is_protected_branch (text_of e.branch) ≡ false
    pub head : p.pre_publish_head ≡ text_of e.expected_pre_publish_head
    pub allowed : AllowedFiles host dir root (files_of e.allowed_files) p.files
    pub before : Run W
    pub after : Run W
    pub fingerprint :
        compute_fingerprint host dir root p.files before
        ≡ (done (text_of e.publication_fingerprint), after)

  branch-unprotected :
      (b : String) (s t : Run W) (x : Unit {0})
      → verify_current_branch host dir root b s ≡ (done x, t)
      → is_protected_branch b ≡ false
  unfolding verify_current_branch
  branch-unprotected b s t x h =
      let a = bind-done _ _ s t x h in ground (arith, require-done _ _ s a.middle a.value a.first)

  head-expected :
      (expected : String) (s t : Run W) (head : String)
      → verify_pre_publish_head host dir root expected s ≡ (done head, t)
      → head ≡ expected
  unfolding verify_pre_publish_head
  head-expected expected s t head h =
      let a = bind-done _ _ s t head h in
      let b = bind-done _ _ a.middle t head a.then_ends in
      let c = bind-done _ _ b.middle t head b.then_ends in
      let (same, here) = require-done _ _ b.middle c.middle c.value c.first in
      ground (arith, c.then_ends, eq_iff (trim b.value) expected)

  repository-passed :
      (e : RawEnvelope) (s t : Run W) (head : String)
      → repository_guards host dir root e s ≡ (done head, t)
      → (is_protected_branch (text_of e.branch) ≡ false)
        × (head ≡ text_of e.expected_pre_publish_head)
  unfolding repository_guards
  repository-passed e s t head h =
      let a = bind-done _ _ s t head h in
      let b = bind-done _ _ a.middle t head a.then_ends in
      let c = bind-done _ _ b.middle t head b.then_ends in
      let d = bind-done _ _ c.middle t head c.then_ends in
      let f = bind-done _ _ d.middle t head d.then_ends in
      (
        branch-unprotected _ a.middle b.middle b.value b.first,
        ground (arith, f.then_ends, head-expected _ c.middle d.middle d.value d.first),
      )

  files-passed :
      (e : RawEnvelope) (s t : Run W) (files : List FileEntry)
      → file_guards host dir root e s ≡ (done files, t)
      → AllowedFiles host dir root (files_of e.allowed_files) files
  unfolding file_guards
  files-passed e s t files h =
      let a = bind-done _ _ s t files h in
      let b = bind-done _ _ a.middle t files a.then_ends in
      let c = bind-done _ _ b.middle t files b.then_ends in
      let same : a.value ≡ files = ground (arith, c.then_ends) in
      subst (AllowedFiles host dir root (files_of e.allowed_files)) same
        (classify_allowed_files-Accepts host dir root _ _ s a.middle a.value a.first)

  fingerprint-passed :
      (expected : String) (files : List FileEntry) (s t : Run W) (x : Unit {0})
      → check_fingerprint host dir root expected files s ≡ (done x, t)
      → (after : Run W) × (compute_fingerprint host dir root files s ≡ (done expected, after))
  unfolding check_fingerprint
  fingerprint-passed expected files s t x h =
      let a = bind-done _ _ s t x h in
      let (same, here) = require-done _ _ a.middle t x a.then_ends in
      (a.middle, a.first ∙ ap (λ v. (done v, a.middle)) ((eq_iff a.value expected).0 same))

  guards-Guarded :
      (e : RawEnvelope) (p : Preflight) (s t : Run W)
      → validate_envelope_shape (some e) ≡ []
      → preflight_guards host dir root e s ≡ (done p, t)
      → Guarded e p
  unfolding preflight_guards
  guards-Guarded e p s t ok h =
      let a = bind-done _ _ s t p h in
      let b = bind-done _ _ a.middle t p a.then_ends in
      let c = bind-done _ _ b.middle t p b.then_ends in
      let made : Preflight = record { files = b.value; pre_publish_head = a.value } in
      let (unprotected, head) = repository-passed e s a.middle a.value a.first in
      let (after, fingerprint) = fingerprint-passed _ _ b.middle c.middle c.value c.first in
      subst (Guarded e) (same_preflight made p c.middle t c.then_ends) (record {
        well_shaped = ok;
        unprotected = unprotected;
        head = head;
        allowed = files-passed e a.middle b.middle b.value b.first;
        before = b.middle;
        after = after;
        fingerprint = fingerprint;
      })
    where
      same_preflight :
          (q p : Preflight) (s t : Run W)
          → (let r : Ended Preflight × Run W = (done q, s) in r) ≡ (done p, t)
          → q ≡ p
      same_preflight q p s t h = ground arith

  -- A preflight is passed only by an envelope that is well shaped, for a branch other than main and
  -- master, at the expected HEAD; its entries are those of its allowed files, with different paths
  -- that stay in the repository; and the fingerprint of their bytes is that of the envelope.
  pub preflight_core-Guarded :
      (e : RawEnvelope) (p : Preflight) (s t : Run W)
      → preflight_core host dir root (some e) s ≡ (done p, t)
      → Guarded e p
  unfolding preflight_core
  preflight_core-Guarded e p s t h =
      let a = bind-done _ _ s t p h in
      let (ok, here) = require-done _ _ s a.middle a.value a.first in
      guards-Guarded e p a.middle t (accepted-nil _ ok) a.then_ends
