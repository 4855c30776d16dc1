-- ===== src/Generate/Tree/Collisions.antt =====
-- No file is written for two certificates: the base names of `generateSpec` of pkg/certtool/spec.go.
use mathlib.Core.List.{append_cancel_left, append_cancel_right, map-append}
use mathlib.Core.Path.{ap₂}
use certtool.Base.{
  ◌≡◌, refl, sym, ◌∙◌, subst, true, false, Option, none, some, List, [], ◌∷◌, ◌++◌, map, Outcome,
  ok, err, arith, Bool-cases, inl, inr,
}
use certtool.Base.Text.{Text, codes, same, same_iff, mem_text, Distinct}
use certtool.Failure.{Failure}
use certtool.Profile.{lookup_text}
use certtool.Spec.{CertificateSpec, spec, Specs, no_specs, add_spec}
use certtool.Issue.Args.{KeyPair, Issuer}
use certtool.Files.Store.{done, failed, Store, Post, Post-next, Post-after, Post-ok, pure}
use certtool.Generate.Names.{spec_filename}
use certtool.Generate.Filenames.{Filenames, Grows, Grows-trans, Grows-fresh, Grows-none}
use certtool.Generate.One.{GenerationOutput, Generator, path_in, generate_one}
use certtool.Generate.Tree.{check_collision, generate_spec, generate_all, generate_from_spec}

Grows-one :
    (names : Filenames) (b cn : Text) {u : Unit {0}}
    → check_collision b cn (lookup_text b names) ≡ ok u
    → Grows names (b ∷ []) ((b, cn) ∷ names)
unfolding check_collision
Grows-one names b cn h = Grows-fresh names b cn (ground arith)

module _ (g : Generator) where
  -- the base names that were used, and where the certificates are
  Made : Filenames → List GenerationOutput → Filenames → Type 0
  Made names outputs names' =
      (bases : List Text) × (map (λ (o : GenerationOutput). o.cert_path) outputs
        ≡ map (λ b. path_in g.output_dir b (codes ".crt")) bases)
      × Grows names bases names'

  own : (m : Outcome Failure (Unit {0})) (s : Store) → Post (λ u. m ≡ ok u) (pure m s)
  own (ok u) s = done refl
  own (err e) s = failed

  none-Made : (names : Filenames) → Made names [] names
  unfolding Made mem_text
  none-Made names = ([], refl, Grows-none names)

  both-Made :
      (n0 : Filenames) (os : List GenerationOutput) (n1 : Filenames) (ps : List GenerationOutput)
      (n2 : Filenames)
      → Made n0 os n1
      → Made n1 ps n2
      → Made n0 (os ++ ps) n2
  unfolding Made
  both-Made n0 os n1 ps n2 (xs, e, h) (ys, f, k) = (
    xs ++ ys,
    map-append _ os ps ∙ ap₂ (λ (a b : List Text). a ++ b) e f ∙ sym (map-append _ xs ys),
    Grows-trans n0 n1 n2 xs ys h k,
  )

  one_more :
      (b cn : Text) (names : Filenames) (o : GenerationOutput) (os : List GenerationOutput)
      (names' : Filenames)
      → Grows names (b ∷ []) ((b, cn) ∷ names)
      → o.cert_path ≡ path_in g.output_dir b (codes ".crt")
      → Made ((b, cn) ∷ names) os names'
      → Made names (o ∷ os) names'
  unfolding Made
  one_more b cn names o os names' h e (ys, f, k) = (
    b ∷ ys,
    ap₂ (λ (a : Text) (l : List Text). a ∷ l) e f,
    Grows-trans names ((b, cn) ∷ names) names' (b ∷ []) ys h k,
  )

  one_path :
      (s : CertificateSpec) (parent : Option KeyPair) (issuer : Option Issuer) (b : Text)
      (store : Store)
      → Post
          (λ (o : GenerationOutput). o.cert_path ≡ path_in g.output_dir b (codes ".crt"))
          (generate_one g s parent issuer b store)
  unfolding generate_one
  one_path (spec f cs) parent issuer b store = Post-after _ _ _ (λ args s1.
      Post-after _ _ _ (λ found s2.
        Post-after _ _ _
          (λ made s3. Post-after _ _ _ (λ pfx s4. Post-after _ _ _ (λ ssh s5. done refl)))))

  mutual
    unfolding generate_spec

    spec-Made :
        (s : CertificateSpec) (parent : Option KeyPair) (issuer : Option Issuer)
        (ancestors : List Text) (names : Filenames) (store : Store)
        → Post (λ r. Made names r.0 r.1) (generate_spec g s parent issuer ancestors names store)
    spec-Made (spec f cs) parent issuer ancestors names store =
        let b = spec_filename ancestors f in
        let checked = check_collision b f.common_name (lookup_text b names) in
        Post-next (λ u. checked ≡ ok u) _ _ _ (own checked store)
          (λ u s1 free. Post-next _ _ _ _ (one_path (spec f cs) parent issuer b s1) (λ o s2 path.
            Post-next _ _ _ _
              (all-Made cs (some o.key_pair) none (ancestors ++ f.common_name ∷ [])
                ((b, f.common_name) ∷ names) s2)
              (λ r s3 below. done (
                one_more b f.common_name names o r.0 r.1 (Grows-one names b f.common_name free) path
                  below))))

    all-Made :
        (ss : Specs) (parent : Option KeyPair) (issuer : Option Issuer) (ancestors : List Text)
        (names : Filenames) (store : Store)
        → Post (λ r. Made names r.0 r.1) (generate_all g ss parent issuer ancestors names store)
    all-Made no_specs parent issuer ancestors names store = done (none-Made names)
    all-Made (add_spec s ss) parent issuer ancestors names store =
        Post-next _ _ _ _ (spec-Made s parent issuer ancestors names store) (λ r s1 first.
          Post-next _ _ _ _ (all-Made ss parent issuer ancestors r.1 s1)
            (λ q s2 others. done (both-Made names r.0 r.1 q.0 q.1 first others)))

  same_base :
      (b c : Text)
      → path_in g.output_dir b (codes ".crt") ≡ path_in g.output_dir c (codes ".crt")
      → b ≡ c
  unfolding path_in
  same_base b c e =
      let behind = append_cancel_left g.output_dir _ _ e in
      append_cancel_right b c (codes ".crt") (append_cancel_left (b'/' ∷ []) _ _ behind)

  apart_path :
      (b c : Text)
      → same b c ≡ false
      → same (path_in g.output_dir b (codes ".crt")) (path_in g.output_dir c (codes ".crt")) ≡ false
  apart_path b c h =
      elim (Bool-cases
        (same (path_in g.output_dir b (codes ".crt")) (path_in g.output_dir c (codes ".crt")))) [
          | inl e ↦
              let f : same b c ≡ true = (same_iff b c).1 (same_base b c ((same_iff _ _).0 e)) in cc
          | inr e ↦ e
        ]

  apart_paths :
      (b : Text) (bs : List Text)
      → mem_text b bs ≡ false
      → mem_text
          (path_in g.output_dir b (codes ".crt"))
          (map (λ c. path_in g.output_dir c (codes ".crt")) bs)
        ≡ false
  unfolding mem_text
  apart_paths b [] h = refl
  apart_paths b (c ∷ bs) h = ground (arith, apart_path b c, apart_paths b bs)

  Distinct-paths :
      (bs : List Text)
      → Distinct bs
      → Distinct (map (λ b. path_in g.output_dir b (codes ".crt")) bs)
  Distinct-paths [] h = tt
  Distinct-paths (b ∷ bs) (n, h) = (apart_paths b bs n, Distinct-paths bs h)

  -- No two certificates of a generation are written to the same file, whatever the specs are called:
  -- base names that would meet are refused.
  pub generate_from_spec-Distinct :
      (made_dir : Outcome Failure (Unit {0})) (specs : Specs) (issuer : Option Issuer)
      (store after : Store) (outputs : List GenerationOutput)
      → generate_from_spec g made_dir specs issuer store ≡ (ok outputs, after)
      → Distinct (map (λ (o : GenerationOutput). o.cert_path) outputs)
  unfolding generate_from_spec Made
  generate_from_spec-Distinct made_dir specs issuer store after outputs h =
      Post-ok (λ os. Distinct (map (λ (o : GenerationOutput). o.cert_path) os)) _ h
        (Post-after _ _ _ (λ u s1. Post-after _ _ _ (λ v s2.
          Post-next _ _ _ _ (all-Made specs none issuer [] [] s2) (λ r s3 (bases, e, grown).
            done (subst Distinct (sym e) (Distinct-paths bases grown.distinct))))))
