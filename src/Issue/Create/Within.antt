-- ===== src/Issue/Create/Within.antt =====
-- Certificates stay within their issuer: what `createCertificateAndPrivateKeyPEM` of
-- pkg/certtool/certtool.go asks x509.CreateCertificate to sign under a parent.
use certtool.Base.{
  ◌==◌, ◌≡◌, refl, sym, ◌∙◌, subst, ℤ, ltb_ℤ, ltb_ℤ-irrefl, Bool, true, false, some, List, [], ◌∷◌,
  All, ok, >>=-eq-ok, arith, Bool-cases, inl, inr,
}
use certtool.Failure.{Failure, bad_key_type, name_not_permitted, address_not_permitted}
use certtool.Cert.{Certificate}
use certtool.Base.Text.{same}
use certtool.Cert.Constraints.{
  keep, localhost, loopback, apply_name_constraints, inherit_dns, inherit_ranges, mark_critical,
  inherit_name_constraints,
}
use certtool.Cert.Constraints.Apply.{
  filtered, keep-filtered, allows_name, allows_ip, apply_name_constraints_lem,
}
use certtool.Issue.Args.{Signer, Args, PrivateKey, public_key, signer_of}
use certtool.Issue.Keys.{signature_algorithm}
use certtool.Issue.Template.{new_certificate_template}
use certtool.Issue.Check.{check_issuer}
use certtool.Issue.Check.Accepts.{CanIssue, AllowsUsages, check_issuer_iff}
use certtool.Issue.Create.{
  Crypto, Request, limit_validity, under_parent, with_algorithm, prepare, find_parent, known,
}

limit_validity-bound :
    (crypto : Crypto) (parent t : Certificate)
    → ltb_ℤ parent.not_after (limit_validity crypto parent t).not_after ≡ false
unfolding limit_validity
limit_validity-bound crypto parent t = ground (arith, ltb_ℤ-irrefl parent.not_after)

module _ {ℓ} {A : Type ℓ} (p q : A → Bool) (failure : A → Failure) where
  keep-All : (xs ys : List A) → keep p q failure xs ≡ ok ys → All (λ y. p y ≡ true) ys
  unfolding keep
  keep-All [] ys h = let e : [] ≡ ys = cc in subst (All (λ y. p y ≡ true)) e tt
  keep-All (x ∷ xs) ys h = elim (Bool-cases (p x)) [
    | inl e ↦
        let (rest, r, s) = >>=-eq-ok (keep p q failure xs) _ (rw e at h) in
        let f : x ∷ rest ≡ ys = cc in subst (All (λ y. p y ≡ true)) f (e, keep-All xs rest r)
    | inr e ↦ elim (Bool-cases (q x)) [
      | inl f ↦ keep-All xs ys (rw f at (rw e at h))
      | inr f ↦ cc (rw f at (rw e at h))
    ]
  ]

  filtered-All : (xs ys : List A) → filtered p q failure xs ≡ ok ys → All (λ y. p y ≡ true) ys
  filtered-All xs ys h = keep-All xs ys (keep-filtered p q failure xs ∙ h)

inherit-keeps_names :
    (issuer t u : Certificate)
    → inherit_name_constraints issuer t ≡ ok u
    → (t.dns_names ≡ u.dns_names) × (t.ip_addresses ≡ u.ip_addresses)
unfolding inherit_name_constraints inherit_dns inherit_ranges mark_critical
inherit-keeps_names issuer t u h = ground arith

-- Both kinds of names that are left are allowed.
apply-allowed :
    (issuer t u : Certificate)
    → apply_name_constraints issuer t ≡ ok u
    → All (λ n. allows_name issuer n ≡ true) u.dns_names
      × All (λ ip. allows_ip issuer ip ≡ true) u.ip_addresses
apply-allowed issuer t u h =
    let (names, p, h1) =
      >>=-eq-ok
        (filtered (allows_name issuer) (λ n. same n localhost) name_not_permitted t.dns_names) _
        (sym (apply_name_constraints_lem issuer t) ∙ h) in
    let (ips, q, h2) =
      >>=-eq-ok
        (filtered (allows_ip issuer) (λ ip. ip == loopback) address_not_permitted t.ip_addresses) _
        h1 in
    let e : names ≡ u.dns_names = ground arith in
    let f : ips ≡ u.ip_addresses = ground arith in
    (subst (All _) e (filtered-All _ _ _ _ names p), subst (All _) f (filtered-All _ _ _ _ ips q))

-- What is known of a certificate that a parent is asked to sign.
pub record Within (parent : Certificate) (now : ℤ) (t : Certificate) : Type 0 where
  pub issuable : CanIssue parent t now
  pub ends_with_parent : ltb_ℤ parent.not_after t.not_after ≡ false
  pub names_allowed : All (λ n. allows_name parent n ≡ true) t.dns_names
  pub ips_allowed : All (λ ip. allows_ip parent ip ≡ true) t.ip_addresses
  pub usages_allowed : AllowsUsages parent t

inherit-keeps_ca :
    (issuer t u : Certificate) → inherit_name_constraints issuer t ≡ ok u → t.is_ca ≡ u.is_ca
unfolding inherit_name_constraints inherit_dns inherit_ranges mark_critical
inherit-keeps_ca issuer t u h = ground arith

apply-keeps_ca :
    (issuer t u : Certificate) → apply_name_constraints issuer t ≡ ok u → t.is_ca ≡ u.is_ca
apply-keeps_ca issuer t u h =
    let (names, p, h1) =
      >>=-eq-ok
        (filtered (allows_name issuer) (λ n. same n localhost) name_not_permitted t.dns_names) _
        (sym (apply_name_constraints_lem issuer t) ∙ h) in
    let (ips, q, h2) =
      >>=-eq-ok
        (filtered (allows_ip issuer) (λ ip. ip == loopback) address_not_permitted t.ip_addresses) _
        h1 in
    ground arith

CanIssue-alike :
    (parent t u : Certificate) (now : ℤ)
    → t.is_ca ≡ u.is_ca
    → CanIssue parent t now
    → CanIssue parent u now
CanIssue-alike parent t u now e c = record {
  constraints_valid = c.constraints_valid;
  authority = c.authority;
  may_sign = c.may_sign;
  not_expired = c.not_expired;
  started = c.started;
  room_below = rw (sym e) c.room_below;
}

allows_alike :
    (parent t u : Certificate)
    → t.ext_key_usage ≡ u.ext_key_usage
    → AllowsUsages parent t
    → AllowsUsages parent u
unfolding AllowsUsages
allows_alike parent t u e (inl h) = inl h
allows_alike parent t u e (inr h) = inr (subst (All _) e h)

limit_validity-keeps :
    (crypto : Crypto) (parent t : Certificate)
    → let u = limit_validity crypto parent t in
      (t.dns_names ≡ u.dns_names)
      × (t.ip_addresses ≡ u.ip_addresses)
      × (t.ext_key_usage ≡ u.ext_key_usage)
      × (t.is_ca ≡ u.is_ca)
unfolding limit_validity
limit_validity-keeps crypto parent t = ground arith

checked-Within :
    (crypto : Crypto) (parent t u : Certificate)
    → check_issuer parent t crypto.now ≡ ok u
    → Within parent crypto.now (limit_validity crypto parent u)
checked-Within crypto parent t u h =
    let (can, e, usages) = (check_issuer_iff parent t u crypto.now).0 h in
    let (named, p, q) = >>=-eq-ok (apply_name_constraints parent t) _ e in
    let (names, ips) = apply-allowed parent t named p in
    let (same_names, same_ips) = inherit-keeps_names parent named u q in
    let (kept_names, kept_ips, kept_usages, kept_ca) = limit_validity-keeps crypto parent u in
    let ca = apply-keeps_ca parent t named p ∙ inherit-keeps_ca parent named u q ∙ kept_ca in
    record {
      issuable = CanIssue-alike parent t _ crypto.now ca can;
      ends_with_parent = limit_validity-bound crypto parent u;
      names_allowed = subst (All _) (same_names ∙ kept_names) names;
      ips_allowed = subst (All _) (same_ips ∙ kept_ips) ips;
      usages_allowed = allows_alike parent u _ kept_usages usages;
    }

with_algorithm-Within :
    (crypto : Crypto) (parent : Certificate) (code_signing : Bool) (r s : Request)
    → with_algorithm crypto code_signing r ≡ ok s
    → Within parent crypto.now r.template
    → Within parent crypto.now s.template
unfolding with_algorithm
with_algorithm-Within crypto parent code_signing r s h w =
    let (algorithm, p, q) = >>=-eq-ok (signature_algorithm r.signer.public code_signing) _ h in
    let t : Certificate = record r.template { signature_algorithm = algorithm } in
    let e : t ≡ s.template = ground arith in
    subst (Within parent crypto.now) e (record {
      issuable = CanIssue-alike parent r.template t crypto.now refl w.issuable;
      ends_with_parent = w.ends_with_parent;
      names_allowed = w.names_allowed;
      ips_allowed = w.ips_allowed;
      usages_allowed = allows_alike parent r.template t refl w.usages_allowed;
    })

-- What certtool asks to have signed under a parent stays within it: the parent is a CA that may
-- sign, is valid now and may have a CA below it if the certificate is one; the certificate does not
-- outlive its parent, and the parent allows all its DNS names, addresses and extended key usages.
pub prepare-Within :
    (crypto : Crypto) (args : Args) (key : PrivateKey) (parent : Certificate) (signer : Signer)
    (r : Request)
    → find_parent crypto args ≡ ok (some (parent, signer))
    → prepare crypto args key ≡ ok r
    → Within parent crypto.now r.template
unfolding prepare under_parent
prepare-Within crypto args key parent signer r found h =
    let (k, p, h1) = >>=-eq-ok (known bad_key_type (public_key key)) _ h in
    let (t, q, h2) =
      >>=-eq-ok (new_certificate_template crypto.parse_address crypto.now crypto.serial args k) _
        h1 in
    let (own, o, h3) = >>=-eq-ok (known bad_key_type (signer_of key)) _ (rw found at h2) in
    let (u, c, h4) = >>=-eq-ok (under_parent crypto own t (some (parent, signer))) _ h3 in
    let (checked, d, e) = >>=-eq-ok (check_issuer parent t crypto.now) _ c in
    let same_template : limit_validity crypto parent checked ≡ u.template = ground arith in
    with_algorithm-Within crypto parent args.code_signing u r h4
      (subst (Within parent crypto.now) same_template (checked-Within crypto parent t checked d))
