-- ===== src/Cert/Constraints/Apply.antt =====
-- What `applyNameConstraints` of pkg/certtool/certtool.go leaves of a template's names.
use certtool.Base.{
  ℕ, ◌≡◌, refl, sym, ap, ◌∙◌, Option, none, some, Bool, true, false, ◌||◌, ◌==◌, if◌then◌else◌,
  List, [], ◌∷◌, is_empty, Outcome, ok, err, ◌>>=◌, arith,
}
use certtool.Base.Text.{Text, same}
use certtool.Net.Range.{IpNet}
use certtool.Failure.{Failure, name_not_permitted, address_not_permitted}
use certtool.Cert.{Certificate}
use certtool.Cert.Constraints.{
  dns_name_permitted, ip_permitted, localhost, loopback, keep, keep_names, keep_ips, constrain_dns,
  constrain_ips, apply_name_constraints,
}

-- The elements with the property, in order.
abbrev pub select {ℓ} : {A : Type ℓ} → (A → Bool) → List A → List A
select p [] = []
select p (x ∷ xs) = if p x then x ∷ select p xs else select p xs

module _ {ℓ} {A : Type ℓ} where
  -- The first element without either property.
  first_neither : (A → Bool) → (A → Bool) → List A → Option A
  first_neither p q [] = none
  first_neither p q (x ∷ xs) =
      let rest = first_neither p q xs in if p x || q x then rest else some x

  -- The elements with the first property, unless one has neither.
  verdict : (A → Bool) → (A → Failure) → List A → Option A → Outcome Failure (List A)
  verdict p failure xs none = ok (select p xs)
  verdict p failure xs (some x) = err (failure x)

  unfoldable pub filtered :
      (A → Bool) → (A → Bool) → (A → Failure) → List A → Outcome Failure (List A)
  unfolding first_neither verdict
  filtered p q failure xs = verdict p failure xs (first_neither p q xs)

  pub keep-filtered :
      (p q : A → Bool) (failure : A → Failure) (xs : List A)
      → keep p q failure xs ≡ filtered p q failure xs
  unfolding keep filtered
  keep-filtered p q failure [] = refl
  keep-filtered p q failure (x ∷ xs) = ground (arith, keep-filtered p q failure xs)

  filtered-true :
      (q : A → Bool) (failure : A → Failure) (xs : List A)
      → filtered (λ _. true) q failure xs ≡ ok xs
  unfolding filtered
  filtered-true q failure [] = refl
  filtered-true q failure (x ∷ xs) = ground (arith, filtered-true q failure xs)

module _ (issuer : Certificate) where
  -- Without constraints of its kind an issuer allows every name.
  abbrev pub allows_name : Text → Bool
  allows_name name =
      is_empty issuer.permitted_dns_domains || dns_name_permitted name issuer.permitted_dns_domains

  abbrev pub allows_ip : ℕ → Bool
  allows_ip ip = is_empty issuer.permitted_ip_ranges || ip_permitted ip issuer.permitted_ip_ranges

allowed_names : List Text → List Text → Outcome Failure (List Text)
allowed_names ds =
    filtered (λ n. is_empty ds || dns_name_permitted n ds) (λ n. same n localhost)
      name_not_permitted

allowed_ips : List IpNet → List ℕ → Outcome Failure (List ℕ)
allowed_ips rs =
    filtered (λ ip. is_empty rs || ip_permitted ip rs) (λ ip. ip == loopback) address_not_permitted

names_lem :
    (ds ns : List Text) → (if is_empty ds then ok ns else keep_names ds ns) ≡ allowed_names ds ns
unfolding keep_names allowed_names
names_lem [] ns = sym (filtered-true _ _ ns)
names_lem (d ∷ ds) ns = keep-filtered _ _ _ ns

ips_lem :
    (rs : List IpNet) (ips : List ℕ)
    → (if is_empty rs then ok ips else keep_ips rs ips) ≡ allowed_ips rs ips
unfolding keep_ips allowed_ips
ips_lem [] ips = sym (filtered-true _ _ ips)
ips_lem (r ∷ rs) ips = keep-filtered _ _ _ ips

constrain_dns_lem :
    (issuer template : Certificate)
    → constrain_dns issuer template ≡ (
        allowed_names issuer.permitted_dns_domains template.dns_names >>= λ names.
        ok (record template { dns_names = names }))
unfolding constrain_dns
constrain_dns_lem issuer template =
    by_emptiness (is_empty issuer.permitted_dns_domains)
    ∙ ap (λ m. m >>= λ names. ok (record template { dns_names = names }))
        (names_lem issuer.permitted_dns_domains template.dns_names)
  where
    by_emptiness :
        (b : Bool)
        → (if b
            then ok template
            else (keep_names issuer.permitted_dns_domains template.dns_names >>= λ names.
                ok (record template { dns_names = names })))
          ≡ ((if b
                then ok template.dns_names
                else keep_names issuer.permitted_dns_domains template.dns_names)
              >>= λ names. ok (record template { dns_names = names }))
    by_emptiness true = refl
    by_emptiness false = refl

constrain_ips_lem :
    (issuer template : Certificate)
    → constrain_ips issuer template ≡ (
        allowed_ips issuer.permitted_ip_ranges template.ip_addresses >>= λ ips.
        ok (record template { ip_addresses = ips }))
unfolding constrain_ips
constrain_ips_lem issuer template =
    by_emptiness (is_empty issuer.permitted_ip_ranges)
    ∙ ap (λ m. m >>= λ ips. ok (record template { ip_addresses = ips }))
        (ips_lem issuer.permitted_ip_ranges template.ip_addresses)
  where
    by_emptiness :
        (b : Bool)
        → (if b
            then ok template
            else (keep_ips issuer.permitted_ip_ranges template.ip_addresses >>= λ ips.
                ok (record template { ip_addresses = ips })))
          ≡ ((if b
                then ok template.ip_addresses
                else keep_ips issuer.permitted_ip_ranges template.ip_addresses)
              >>= λ ips. ok (record template { ip_addresses = ips }))
    by_emptiness true = refl
    by_emptiness false = refl

then_ips :
    (issuer template : Certificate) (m : Outcome Failure (List Text))
    → (m >>= (λ names. ok (record template { dns_names = names })) >>= constrain_ips issuer) ≡ (do
      names ← m
      ips ← allowed_ips issuer.permitted_ip_ranges template.ip_addresses
      ok (record template { dns_names = names; ip_addresses = ips }))
then_ips issuer template (ok names) =
    constrain_ips_lem issuer (record template { dns_names = names })
then_ips issuer template (err e) = refl

-- `applyNameConstraints` keeps, in order, exactly the DNS names and addresses that the issuer
-- allows, and changes nothing else; it fails at the first DNS name that is neither allowed nor
-- localhost, then at the first address that is neither allowed nor 127.0.0.1.
pub apply_name_constraints_lem :
    (issuer template : Certificate)
    → apply_name_constraints issuer template ≡ (do
      names ←
          filtered
            (allows_name issuer)
            (λ n. same n localhost)
            name_not_permitted
            template.dns_names
      ips ←
          filtered
            (allows_ip issuer)
            (λ ip. ip == loopback)
            address_not_permitted
            template.ip_addresses
      ok (record template { dns_names = names; ip_addresses = ips }))
unfolding apply_name_constraints allowed_names allowed_ips
apply_name_constraints_lem issuer template =
    ap (λ m. m >>= constrain_ips issuer) (constrain_dns_lem issuer template)
    ∙ then_ips issuer template (allowed_names issuer.permitted_dns_domains template.dns_names)
