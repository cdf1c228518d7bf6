-- ===== src/Publication/Files/Accepted.antt =====
-- What an accepted list of allowed files is.
use mihver.Prelude.{
  ◌==◌, ◌||◌, map, ap, sym, subst, ◌∙◌, suc, ◌≤◌, ◌≡◌, refl, String, Bool, true, false, not, ◌&&◌,
  Option, none, some, List, [], ◌∷◌, ◌++◌, arith, length, length-append, any, includes, All,
  Bool-cases, Option-cases, inl, inr, if◌then◌else◌, map, eq_iff, Distinct, eqb,
}
use mihver.Publication.Envelope.{RawFile, is_allowed_action}
use mihver.Publication.Host.{
  Host, Run, Ended, done, FileKind, symbolic_link, directory, special, regular,
}
use mihver.Publication.Inversion.{bind-done, require-done}
use mihver.Publication.Files.{
  FileEntry, Classified, classified, malformed, duplicates_from, is_rejected, entries_of,
  is_safe_relative_path, resolves_inside_repo, classify_kind, classify_tracked, classify_on_disk,
  classify_path, classify_entry, classify_all, first_word, unsafe_path, classify_allowed_files,
}

length-if :
    (b : Bool) (xs ys : List String)
    → length xs ≤ length ys
    → length xs ≤ length (if b then ys else xs)
length-if true xs ys h = h
length-if false xs ys h = omega arith

length-duplicates_from :
    (seen found : List String) (files : List RawFile)
    → length found ≤ length (duplicates_from seen found files)
unfolding duplicates_from
length-duplicates_from seen found [] = omega arith
length-duplicates_from seen found (f ∷ files) = elim (Option-cases f.path) [
  | inl e ↦ rw (e, duplicates_from) (length-duplicates_from seen found files)
  | inr (p, e) ↦
      rw (e, duplicates_from) omega
        (
          arith,
          length-append found (p ∷ []),
          length-if (includes seen p && not (includes found p)) found (found ++ p ∷ []),
          length-duplicates_from (p ∷ seen)
              (if includes seen p && not (includes found p) then found ++ p ∷ [] else found) files,
        )
]

-- The paths that are texts.
abbrev pub named_paths : List RawFile → List String
named_paths [] = []
named_paths (f ∷ files) = elim f.path [ none ↦ named_paths files | some p ↦ p ∷ named_paths files ]

unseen_tail :
    (p : String) (seen qs : List String)
    → All (λ q. includes (p ∷ seen) q ≡ false) qs
    → (includes qs p ≡ false) × All (λ q. includes seen q ≡ false) qs
unfolding includes
unseen_tail p seen [] h = (refl, tt)
unseen_tail p seen (q ∷ qs) h =
    let (fresh, rest) = unseen_tail p seen qs h.1 in
    (ground (arith, eq_iff p q, eq_iff q p), (ground arith, rest))

repeats-none :
    (seen : List String) (p : String) (files : List RawFile)
    → duplicates_from
        (p ∷ seen)
        (if includes seen p && not (includes [] p) then [] ++ p ∷ [] else [])
        files
      ≡ []
    → includes seen p ≡ false
repeats-none seen p files h = elim (Bool-cases (includes seen p)) [
  | inr e ↦ e
  | inl e ↦
      let h' : duplicates_from (p ∷ seen) (p ∷ []) files ≡ [] =
        ap (λ (b : Bool). duplicates_from (p ∷ seen) (if b then p ∷ [] else []) files)
          (sym (both e))
        ∙ h in
      absurd (omega (arith, ap length h', length-duplicates_from (p ∷ seen) (p ∷ []) files))
]
  where
    both : includes seen p ≡ true → (includes seen p && not (includes [] p)) ≡ true
    both e = unfold includes in rw e refl

skipped :
    (seen : List String) (p : String) (files : List RawFile)
    → includes seen p ≡ false
    → duplicates_from
        (p ∷ seen)
        (if includes seen p && not (includes [] p) then [] ++ p ∷ [] else [])
        files
      ≡ []
    → duplicates_from (p ∷ seen) [] files ≡ []
skipped seen p files e h = rw e at h

abbrev named_or : List String → Option String → List String
named_or rest none = rest
named_or rest (some p) = p ∷ rest

named_paths-eq :
    (f : RawFile) (files : List RawFile)
    → named_paths (f ∷ files) ≡ named_or (named_paths files) f.path
named_paths-eq f files = ground arith

duplicates_from-none :
    (seen : List String) (f : RawFile) (files : List RawFile)
    → f.path ≡ none
    → duplicates_from seen [] (f ∷ files) ≡ duplicates_from seen [] files
unfolding duplicates_from
duplicates_from-none seen f files e = rw (e, duplicates_from) refl

duplicates_from-some :
    (seen : List String) (f : RawFile) (p : String) (files : List RawFile)
    → f.path ≡ some p
    → duplicates_from seen [] (f ∷ files)
      ≡ duplicates_from
          (p ∷ seen)
          (if includes seen p && not (includes [] p) then [] ++ p ∷ [] else [])
          files
unfolding duplicates_from
duplicates_from-some seen f p files e = rw (e, duplicates_from) refl

-- Paths that are pairwise different, and different from those that were seen.
abbrev Fresh : List String → List String → Type 0
Fresh seen ps = Distinct ps × All (λ q. includes seen q ≡ false) ps

Fresh-named_or :
    (seen : List String) (f : RawFile) (files : List RawFile) (o : Option String)
    → f.path ≡ o
    → Fresh seen (named_or (named_paths files) o)
    → Fresh seen (named_paths (f ∷ files))
Fresh-named_or seen f files o e h =
    subst (Fresh seen) (sym (named_paths-eq f files ∙ ap (named_or (named_paths files)) e)) h

duplicates_from-Distinct :
    (seen : List String) (files : List RawFile)
    → duplicates_from seen [] files ≡ []
    → Fresh seen (named_paths files)
duplicates_from-Distinct seen [] h = (tt, tt)
duplicates_from-Distinct seen (f ∷ files) h = elim (Option-cases f.path) [
  | inl e ↦
      Fresh-named_or seen f files none e
        (duplicates_from-Distinct seen files (sym (duplicates_from-none seen f files e) ∙ h))
  | inr (p, e) ↦
      let h' = sym (duplicates_from-some seen f p files e) ∙ h in
      let unseen = repeats-none seen p files h' in
      let (distinct, others) =
        duplicates_from-Distinct (p ∷ seen) files (skipped seen p files unseen h') in
      let (fresh, rest) = unseen_tail p seen (named_paths files) others in
      Fresh-named_or seen f files (some p) e ((fresh, distinct), (unseen, rest))
]

length-zero : (ps : List String) → eqb (length ps) 0 ≡ true → ps ≡ []
length-zero [] h = refl
length-zero (p ∷ ps) h = absurd (ground arith)

abbrev Fits : String → Bool → Classified → Type 0
Fits path ok (malformed reason p) = Unit
Fits path ok (classified e) = (e.path ≡ path) × (ok ≡ true)

abbrev OnDone : {A : Type 0} → (A → Type 0) → Ended A → Type 0
OnDone P (done a) = P a
OnDone P e = Unit

module _ {W : Type 0} (host : Host W) (dir root : String) where
  -- The guard against paths that leave the repository.
  abbrev pub stays_inside : String → Bool
  stays_inside path =
      is_safe_relative_path host dir root path && resolves_inside_repo host dir root path

  classify_kind-Fits :
      (path : String) (b : Bool) (k : FileKind)
      → Fits path true (classify_kind host dir root path b k)
  unfolding classify_kind
  classify_kind-Fits path true regular = (refl, refl)
  classify_kind-Fits path false regular = tt
  classify_kind-Fits path b directory = tt
  classify_kind-Fits path b symbolic_link = tt
  classify_kind-Fits path b special = tt

  classify_tracked-Fits :
      (path : String) (found : List String)
      → Fits path true (classify_tracked host dir root path found)
  unfolding classify_tracked
  classify_tracked-Fits path [] = tt
  classify_tracked-Fits path (line ∷ a ∷ more) = tt
  classify_tracked-Fits path (line ∷ []) =
      elim (Bool-cases (first_word line == "100644" || first_word line == "100755")) [
        | inl e ↦ rw e (refl, refl)
        | inr e ↦ rw e tt
      ]

  classify_on_disk-Fits :
      (head path : String) (b : Bool) (k : Option FileKind) (s : Run W)
      → OnDone (Fits path true) (classify_on_disk host dir root head path b k s).0
  unfolding classify_on_disk
  classify_on_disk-Fits head path b (some k) s = classify_kind-Fits path b k
  classify_on_disk-Fits head path true none s = tt
  classify_on_disk-Fits head path false none s = classify_tracked-Fits path _

  classify_path-Fits :
      (head path : String) (action : Option String) (s : Run W)
      → OnDone (Fits path (stays_inside path)) (classify_path host dir root head path action s).0
  unfolding classify_path
  classify_path-Fits head path action s =
      elim (Bool-cases (is_safe_relative_path host dir root path)) [
        | inr e ↦ rw e tt
        | inl e ↦ rw e (elim (Bool-cases (resolves_inside_repo host dir root path)) [
          | inr g ↦ rw g tt
          | inl g ↦ rw g (elim (Bool-cases (is_allowed_action action)) [
            | inr k ↦ rw k tt
            | inl k ↦ rw k (classify_on_disk-Fits head path _ _ s)
          ])
        ])
      ]

  -- The entries are those of the files, in their order, and none leaves the repository.
  pub record Accepts (files : List RawFile) (es : List FileEntry) : Type 0 where
    pub same_paths : map (λ (e : FileEntry). e.path) es ≡ named_paths files
    pub same_length : length es ≡ length files
    pub inside : All (λ p. stays_inside p ≡ true) (named_paths files)

  accept_one :
      (duplicates : List String) (f : RawFile) (path : String) (files : List RawFile)
      (c : Classified) (cs : List Classified)
      → f.path ≡ some path
      → Fits path (stays_inside path) c
      → is_rejected duplicates c ≡ false
      → Accepts files (entries_of cs)
      → Accepts (f ∷ files) (entries_of (c ∷ cs))
  unfolding is_rejected entries_of
  accept_one duplicates f path files (malformed reason p) cs e h r a = absurd (ground arith)
  accept_one duplicates f path files (classified x) cs e (same, ok) r a =
      rw (e, named_paths)
        (record {
          same_paths =
              ap (λ q. q ∷ map (λ (y : FileEntry). y.path) (entries_of cs)) same
              ∙ ap (λ xs. path ∷ xs) a.same_paths;
          same_length = ap suc a.same_length;
          inside = (ok, a.inside);
        })

  classify_entry-some :
      (head : String) (f : RawFile) (path : String) (s : Run W)
      → f.path ≡ some path
      → classify_entry host dir root head f s ≡ classify_path host dir root head path f.action s
  unfolding classify_entry
  classify_entry-some head f path s e = rw (e, classify_entry) refl

  classify_entry-none :
      (head : String) (f : RawFile) (s : Run W)
      → f.path ≡ none
      → classify_entry host dir root head f s ≡ (done (malformed unsafe_path none), s)
  unfolding classify_entry
  classify_entry-none head f s e = rw (e, classify_entry) refl

  classify_entry-refused :
      (duplicates : List String) (head : String) (f : RawFile) (s t : Run W) (c : Classified)
      → classify_entry host dir root head f s ≡ (done c, t)
      → is_rejected duplicates c ≡ false
      → (path : String) × (f.path ≡ some path) × Fits path (stays_inside path) c
  unfolding classify_entry is_rejected
  classify_entry-refused duplicates head f s t c h r = elim (Option-cases f.path) [
    | inl e ↦ absurd (ground (arith, classify_entry-none head f s e))
    | inr (path, e) ↦ (
      path,
      e,
      subst (OnDone (Fits path (stays_inside path)))
          (ap (λ x. x.0) (sym (classify_entry-some head f path s e) ∙ h))
          (classify_path-Fits head path f.action s),
    )
  ]

  classify_all-Accepts :
      (duplicates : List String) (head : String) (files : List RawFile) (s t : Run W)
      (cs : List Classified)
      → classify_all host dir root head files s ≡ (done cs, t)
      → any (is_rejected duplicates) cs ≡ false
      → Accepts files (entries_of cs)
  unfolding classify_all any entries_of
  classify_all-Accepts duplicates head [] s t cs h r =
      let e : [] ≡ cs = ground arith in
      subst (λ x. Accepts [] (entries_of x)) e
        (record { same_paths = refl; same_length = refl; inside = tt })
  classify_all-Accepts duplicates head (f ∷ files) s t cs h r =
      let b = bind-done (classify_entry host dir root head f) _ s t cs h in
      let d = bind-done (classify_all host dir root head files) _ b.middle t cs b.then_ends in
      let e : b.value ∷ d.value ≡ cs = ground (arith, d.then_ends) in
      let r' : any (is_rejected duplicates) (b.value ∷ d.value) ≡ false =
        ap (any (is_rejected duplicates)) e ∙ r in
      let (path, named, fits) =
        classify_entry-refused duplicates head f s b.middle b.value b.first (ground arith) in
      subst (λ x. Accepts (f ∷ files) (entries_of x)) e
        (accept_one duplicates f path files b.value d.value named fits (ground arith) (
          classify_all-Accepts duplicates head files b.middle d.middle d.value d.first
            (ground arith)))

  -- A list of allowed files that is accepted: the entries are those of the list, in its order, with
  -- different paths, of which none leaves the repository.
  pub record AllowedFiles (files : List RawFile) (es : List FileEntry) : Type 0 where
    pub accepts : Accepts files es
    pub distinct : Distinct (named_paths files)

  -- A list of allowed files is accepted only when its entries are those of the list, in its order,
  -- with different paths of which each is safe and stays inside the repository.
  pub classify_allowed_files-Accepts :
      (head : String) (files : List RawFile) (s t : Run W) (es : List FileEntry)
      → classify_allowed_files host dir root head files s ≡ (done es, t)
      → AllowedFiles files es
  unfolding classify_allowed_files
  classify_allowed_files-Accepts head files s t es h =
      let b = bind-done (classify_all host dir root head files) _ s t es h in
      let d = bind-done _ _ b.middle t es b.then_ends in
      let (tests, here) = require-done _ _ b.middle d.middle d.value d.first in
      let e : entries_of b.value ≡ es = ground (arith, d.then_ends) in
      record {
        accepts = subst (Accepts files) e (
            classify_all-Accepts (duplicates_from [] [] files) head files s b.middle b.value b.first
              (ground arith));
        distinct = (duplicates_from-Distinct [] files (length-zero _ (ground arith))).0;
      }
