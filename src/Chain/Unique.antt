-- ===== src/Chain/Unique.antt =====
-- The common names of what `ChainToSpec` of pkg/certtool/spec.go returns.
use certtool.Base.{
  ◌≡◌, refl, sym, ap, ◌∙◌, true, false, if◌then◌else◌, List, [], ◌∷◌, ◌++◌, ℤ, All, All-mono,
  Outcome, ok, err, ◌>>=◌, >>=-eq-ok, arith, subst,
}
use certtool.Base.Text.{Text, mem_text, Distinct, not_among}
use certtool.Failure.{Failure, repeated_name}
use certtool.Spec.{CertificateSpec, spec, Specs, no_specs, add_spec}
use certtool.Spec.Passwords.{names_of, names_in}
use certtool.Chain.{check_unique, check_unique_names, check_widths, chain_specs, chain_to_spec}

-- Every common name of a tree, parents before children.
abbrev pub all_names : Specs → List Text
all_names = names_in (λ _. true)

bind-ext :
    {A B : Type 0} {f g : A → Outcome Failure B} (m : Outcome Failure A)
    → ((a : A) → f a ≡ g a)
    → (m >>= f) ≡ (m >>= g)
bind-ext (ok a) same_rest = same_rest a
bind-ext (err x) same_rest = refl

-- The check on a list of names.
check_list : List Text → List Text → Outcome Failure (List Text)
check_list seen [] = ok seen
check_list seen (n ∷ ns) =
    let rest = check_list (n ∷ seen) ns in if mem_text n seen then err (repeated_name n) else rest

check_list-append :
    (seen ns ms : List Text)
    → check_list seen (ns ++ ms) ≡ (check_list seen ns >>= λ s. check_list s ms)
unfolding check_list
check_list-append seen [] ms = refl
check_list-append seen (n ∷ ns) ms = ground (arith, check_list-append (n ∷ seen) ns ms)

mutual
  unfolding check_unique names_of check_list

  check_unique_lem :
      (seen : List Text) (s : CertificateSpec)
      → check_unique seen s ≡ check_list seen (names_of (λ _. true) s)
  check_unique_lem seen (spec f cs) = ground (arith, check_names_lem (f.common_name ∷ seen) cs)

  check_names_lem :
      (seen : List Text) (ss : Specs)
      → check_unique_names seen ss ≡ check_list seen (names_in (λ _. true) ss)
  check_names_lem seen no_specs = refl
  check_names_lem seen (add_spec s ss) =
      bind-ext (check_unique seen s) (λ seen'. check_names_lem seen' ss)
      ∙ ap (λ m. m >>= λ seen'. check_list seen' (names_in (λ _. true) ss))
          (check_unique_lem seen s)
      ∙ sym (check_list-append seen (names_of (λ _. true) s) (names_in (λ _. true) ss))

check_list-cons :
    (seen : List Text) (n : Text) (ns r : List Text)
    → check_list seen (n ∷ ns) ≡ ok r
    → (mem_text n seen ≡ false) × (check_list (n ∷ seen) ns ≡ ok r)
unfolding check_list
check_list-cons seen n ns r e = ground arith

check_list_ok :
    (seen ns r : List Text)
    → check_list seen ns ≡ ok r
    → Distinct ns × All (λ n. mem_text n seen ≡ false) ns
unfolding mem_text
check_list_ok seen [] r e = (tt, tt)
check_list_ok seen (n ∷ ns) r e =
    let (fresh, rest) = check_list-cons seen n ns r e in
    let (distinct, apart) = check_list_ok (n ∷ seen) ns r rest in
    ((not_among n seen ns apart, distinct), (fresh, All-mono (λ m h. ground arith) ns apart))

-- What `ChainToSpec` returns has no common name twice, over all layers and branches.
pub chain_to_spec-Distinct :
    (widths : List ℤ) (common_name organization name_prefix : Text) (specs : Specs)
    → chain_to_spec widths common_name organization name_prefix ≡ ok specs
    → Distinct (all_names specs)
unfolding chain_to_spec
chain_to_spec-Distinct [] common_name organization name_prefix specs h = cc
chain_to_spec-Distinct (w ∷ ws) common_name organization name_prefix specs h =
    let (counts, _, q) = >>=-eq-ok (check_widths 1 (w ∷ ws)) _ h in
    let built = chain_specs counts common_name organization name_prefix in
    let (seen, checked, same_specs) = >>=-eq-ok (check_unique_names [] built) (λ _. ok built) q in
    let e : built ≡ specs = cc in
    subst (λ s. Distinct (names_in (λ _. true) s)) e
      (check_list_ok [] (names_in (λ _. true) built) seen
        (sym (check_names_lem [] built) ∙ checked)).0
