-- ===== src/Issue/Template/Roles.antt =====
-- What the arguments decide about a certificate, in `newCertificateTemplate` of
-- pkg/certtool/certtool.go.
use certtool.Base.{
  ℕ, ◌≡◌, sym, ◌∙◌, ℤ, ◌+ℤ◌, true, ◌&&◌, not, if◌then◌else◌, Option, List, [], is_empty, ok,
  >>=-eq-ok, refuse, arith, Bool-cases, inl, inr, if_true, if_false,
}
use certtool.Base.Text.{Text}
use certtool.Host.Valid.{Address}
use certtool.Host.Names.{subject_alt_names}
use certtool.Spec.Validate.{validate_emails}
use certtool.Cert.{usage_code_signing, usage_eq, email_protection, PublicKey, Certificate}
use certtool.Issue.Args.{Args}
use certtool.Issue.Check.{has_usage}
use certtool.Issue.Template.{
  ca_usage, leaf_usage, is_rsa, ext_usages, base_template, limit_path, check_permitted, ca_template,
  name_template, leaf_template, new_certificate_template,
}

ca_role :
    (args : Args) (t u : Certificate)
    → ca_template args t ≡ ok u
    → (u.is_ca ≡ t.is_ca)
      × (u.key_usage ≡ ca_usage)
      × (u.not_after ≡ t.not_after)
      × (u.ext_key_usage ≡ t.ext_key_usage)
      × (u.dns_names ≡ t.dns_names)
      × (u.ip_addresses ≡ t.ip_addresses)
      × (u.permitted_dns_domains ≡ args.permitted_dns_domains)
      × (u.permitted_ip_ranges ≡ args.permitted_ip_ranges)
unfolding ca_template limit_path
ca_role args t u h =
    let (limited, p, h1) =
      >>=-eq-ok (limit_path args.max_path_len (record t { key_usage = ca_usage })) _ h in
    let (v, q, h2) = >>=-eq-ok (check_permitted args.permitted_dns_domains) _ h1 in ground arith

named_role :
    (hostnames : List Text) (t u : Certificate)
    → name_template hostnames t ≡ ok u
    → (u.is_ca ≡ t.is_ca)
      × (u.key_usage ≡ t.key_usage)
      × (u.not_after ≡ t.not_after)
      × (u.ext_key_usage ≡ t.ext_key_usage)
      × (u.permitted_dns_domains ≡ t.permitted_dns_domains)
      × (u.permitted_ip_ranges ≡ t.permitted_ip_ranges)
unfolding name_template
named_role hostnames t u h =
    let (names, p, h1) = >>=-eq-ok (subject_alt_names hostnames) _ h in ground arith

leaf_role :
    (parse_address : Text → Option Address) (args : Args) (t u : Certificate)
    → leaf_template parse_address args t ≡ ok u
    → (u.is_ca ≡ t.is_ca)
      × (u.key_usage ≡ t.key_usage)
      × (u.not_after ≡ t.not_after)
      × (u.ext_key_usage ≡ t.ext_key_usage)
      × (u.permitted_dns_domains ≡ t.permitted_dns_domains)
      × (u.permitted_ip_ranges ≡ t.permitted_ip_ranges)
unfolding leaf_template
leaf_role parse_address args t u h = elim (Bool-cases (is_empty args.email_addresses)) [
  | inl e ↦ elim (Bool-cases args.code_signing) [
    | inl f ↦ let e : ok t ≡ ok u = rw f at (rw e at h) in ground arith
    | inr f ↦ named_role _ t u (rw f at (rw e at h))
  ]
  | inr e ↦
      let (v, p, h1) = >>=-eq-ok (refuse args.code_signing _) _ (rw e at h) in
      let (w, q, h2) = >>=-eq-ok (validate_emails parse_address args.email_addresses) _ h1 in
      let r =
        named_role args.hostnames (record t { email_addresses = args.email_addresses }) u h2 in
      r
]

code_signing_lem :
    (args : Args) → has_usage (ext_usages args) usage_code_signing ≡ args.code_signing
unfolding has_usage ext_usages usage_eq
code_signing_lem args = ground arith

email_protection_lem :
    (args : Args)
    → has_usage (ext_usages args) email_protection ≡ (
        not args.code_signing
        && (if args.ca then args.email_protection else not (is_empty args.email_addresses)))
unfolding has_usage ext_usages usage_eq
email_protection_lem args = ground arith

-- What the arguments decide about a template.
pub record Role (now : ℤ) (args : Args) (key : PublicKey) (t : Certificate) : Type 0 where
  pub authority : t.is_ca ≡ args.ca
  pub usage :
      t.key_usage ≡ (if args.ca then ca_usage else leaf_usage (not args.code_signing && is_rsa key))
  pub last : t.not_after ≡ now +ℤ args.validity
  pub signs_code : has_usage t.ext_key_usage usage_code_signing ≡ args.code_signing
  pub protects_email : has_usage t.ext_key_usage email_protection ≡ (
      not args.code_signing
      && (if args.ca then args.email_protection else not (is_empty args.email_addresses)))
  pub ca_has_no_names : args.ca ≡ true → (t.dns_names ≡ []) × (t.ip_addresses ≡ [])
  pub domains : t.permitted_dns_domains ≡ (if args.ca then args.permitted_dns_domains else [])
  pub ranges : t.permitted_ip_ranges ≡ (if args.ca then args.permitted_ip_ranges else [])

-- A template is a CA's exactly when the arguments ask for one, and then it may sign certificates and
-- CRLs, has no names of its own and the constraints given; a leaf may not sign certificates and has
-- no constraints. It ends when its validity is over, allows code signing exactly when asked to, and
-- email protection only when asked to or for addresses.
pub new_certificate_template-Role :
    (parse_address : Text → Option Address) (now : ℤ) (serial : ℕ) (args : Args) (key : PublicKey)
    (t : Certificate)
    → new_certificate_template parse_address now serial args key ≡ ok t
    → Role now args key t
unfolding new_certificate_template base_template
new_certificate_template-Role parse_address now serial args key t h = elim (Bool-cases args.ca) [
  | inl e ↦
      let (a, b, c, d, n, i, p, r) =
        ca_role args (base_template now serial args key) t (sym (if_true args.ca _ _ e) ∙ h) in
      record {
        authority = a;
        usage = b ∙ sym (if_true args.ca _ _ e);
        last = c;
        signs_code = rw d (code_signing_lem args);
        protects_email = rw d (email_protection_lem args);
        ca_has_no_names = λ _. (n, i);
        domains = p ∙ sym (if_true args.ca _ _ e);
        ranges = r ∙ sym (if_true args.ca _ _ e);
      }
  | inr e ↦
      let (a, b, c, d, p, r) =
        leaf_role parse_address args (base_template now serial args key) t
          (sym (if_false args.ca _ _ e) ∙ h) in
      record {
        authority = a;
        usage = b ∙ sym (if_false args.ca _ _ e);
        last = c;
        signs_code = rw d (code_signing_lem args);
        protects_email = rw d (email_protection_lem args);
        ca_has_no_names = λ ca. cc;
        domains = p ∙ sym (if_false args.ca _ _ e);
        ranges = r ∙ sym (if_false args.ca _ _ e);
      }
]
