-- ===== src/Issue/Create/Root.antt =====
-- Roots for keys on a token: `CreateSelfSignedCertificate` of pkg/certtool/certtool.go.
use certtool.Base.{
  ◌≡◌, refl, sym, ap, ◌∙◌, ℤ, ltb_ℤ, true, false, not, if◌then◌else◌, none, [], is_empty, ok, ◌>>=◌,
  >>=-eq-ok, arith, Bool-cases, inl, inr, if_true, if_false,
}
use certtool.Cert.{Certificate, SignatureAlgorithm}
use certtool.Cert.Constraints.{
  constrain_dns, constrain_ips, apply_name_constraints, inherit_dns, inherit_ranges, mark_critical,
  inherit_name_constraints,
}
use certtool.Cert.Constraints.Inherit.{inherit_ca}
use certtool.Issue.Args.{Signer, Args, fill_defaults}
use certtool.Issue.Keys.{signature_algorithm}
use certtool.Issue.Template.{
  ca_usage, limit_path, ca_template, base_template, check_permitted, new_certificate_template,
}
use certtool.Issue.Template.Roles.{new_certificate_template-Role}
use certtool.Issue.Check.{check_issuer}
use certtool.Issue.Check.Accepts.{CanIssue, AllowsUsages, check_issuer_iff}
use certtool.Issue.Create.{Crypto, unlimited, self_signed_template}

template_unlimited :
    (args : Args) (t u : Certificate)
    → ca_template args t ≡ ok u
    → args.max_path_len ≡ none
    → (u.basic_constraints_valid ≡ t.basic_constraints_valid)
      × (u.is_ca ≡ t.is_ca)
      × (u.permitted_dns_domains ≡ args.permitted_dns_domains)
      × (u.permitted_ip_ranges ≡ args.permitted_ip_ranges)
      × (u.max_path_len_zero ≡ t.max_path_len_zero)
      × (u.not_before ≡ t.not_before)
      × (u.not_after ≡ t.not_after)
unfolding ca_template limit_path
template_unlimited args t u h e =
    let (limited, p, h1) =
      >>=-eq-ok (limit_path args.max_path_len (record t { key_usage = ca_usage })) _ h in
    let (v, q, h2) = >>=-eq-ok (check_permitted args.permitted_dns_domains) _ h1 in ground arith

module _ (root t : Certificate) (no_domains : is_empty root.permitted_dns_domains ≡ true)
    (no_ranges : is_empty root.permitted_ip_ranges ≡ true) where
  unconstrained : apply_name_constraints root t ≡ ok t
  unfolding apply_name_constraints constrain_dns constrain_ips
  unconstrained =
      ap (λ m. m >>= constrain_ips root) (if_true _ _ _ no_domains) ∙ if_true _ _ _ no_ranges

  nothing_inherited : inherit_name_constraints root t ≡ ok (if t.is_ca then mark_critical t else t)
  unfolding inherit_name_constraints inherit_dns inherit_ranges
  nothing_inherited = elim (Bool-cases t.is_ca) [
    | inl e ↦
        inherit_ca root t e
        ∙ ap (λ m. m >>= λ u. inherit_ranges root u >>= λ w. ok (mark_critical w))
            (if_true _ _ _ no_domains)
        ∙ ap (λ m. m >>= λ w. ok (mark_critical w)) (if_true _ _ _ no_ranges)
        ∙ ap ok (sym (if_true t.is_ca _ _ e))
    | inr e ↦ if_true (not t.is_ca) _ _ (ap not e) ∙ ap ok (sym (if_false t.is_ca _ _ e))
  ]

issue_any :
    (root t : Certificate) (now : ℤ)
    → CanIssue root t now
    → root.ext_key_usage ≡ []
    → root.permitted_dns_domains ≡ []
    → root.permitted_ip_ranges ≡ []
    → check_issuer root t now ≡ ok (if t.is_ca then mark_critical t else t)
unfolding AllowsUsages
issue_any root t now can no_usages no_domains no_ranges =
    (check_issuer_iff root t _ now).1 (can, named, inl (rw no_usages refl))
  where
    named :
        (apply_name_constraints root t >>= inherit_name_constraints root)
        ≡ ok (if t.is_ca then mark_critical t else t)
    named =
        ap (λ m. m >>= inherit_name_constraints root)
          (unconstrained root t (ap is_empty no_domains) (ap is_empty no_ranges))
        ∙ nothing_inherited root t (ap is_empty no_domains) (ap is_empty no_ranges)

root_issues :
    (root u t : Certificate) (algorithm : SignatureAlgorithm) (now : ℤ)
    → record u {
      key_usage = ca_usage;
      ext_key_usage = [];
      dns_names = [];
      ip_addresses = [];
      signature_algorithm = algorithm;
    }
      ≡ root
    → u.basic_constraints_valid ≡ true
    → u.is_ca ≡ true
    → u.permitted_dns_domains ≡ []
    → u.permitted_ip_ranges ≡ []
    → u.max_path_len_zero ≡ false
    → ltb_ℤ now root.not_before ≡ false
    → ltb_ℤ root.not_after now ≡ false
    → check_issuer root t now ≡ ok (if t.is_ca then mark_critical t else t)
root_issues root u t algorithm now e valid ca domains ranges no_limit started running =
    issue_any root t now
      (record {
        constraints_valid = sym (ap (λ (c : Certificate). c.basic_constraints_valid) e) ∙ valid;
        authority = sym (ap (λ (c : Certificate). c.is_ca) e) ∙ ca;
        may_sign = ground (arith, ap (λ (c : Certificate). c.key_usage.cert_sign) e);
        not_expired = running;
        started = started;
        room_below = ground (arith, ap (λ (c : Certificate). c.max_path_len_zero) e);
      })
      (sym (ap (λ (c : Certificate). c.ext_key_usage) e))
      (sym (ap (λ (c : Certificate). c.permitted_dns_domains) e) ∙ domains)
      (sym (ap (λ (c : Certificate). c.permitted_ip_ranges) e) ∙ ranges)

-- A root certificate for a key on a token, made without constraints or a path limit, can issue every
-- template while it is valid, including CAs and certificates for code signing and email: `checkIssuer`
-- changes nothing but that a CA's own constraints become critical.
pub self_signed_template-issues :
    (crypto : Crypto) (args : Args) (signer : Signer) (root t : Certificate) (now : ℤ)
    → args.ca ≡ true
    → args.max_path_len ≡ none
    → args.permitted_dns_domains ≡ []
    → args.permitted_ip_ranges ≡ []
    → self_signed_template crypto args signer ≡ ok root
    → ltb_ℤ now root.not_before ≡ false
    → ltb_ℤ root.not_after now ≡ false
    → check_issuer root t now ≡ ok (if t.is_ca then mark_critical t else t)
unfolding self_signed_template fill_defaults unlimited new_certificate_template
self_signed_template-issues crypto args signer root t now ca limit domains ranges h started
      running =
    let filled = fill_defaults args in
    let (u, p, h1) =
      >>=-eq-ok
        (new_certificate_template crypto.parse_address crypto.now crypto.serial filled
          signer.public)
        _ h in
    let (algorithm, q, h2) = >>=-eq-ok (signature_algorithm signer.public args.code_signing) _ h1 in
    let (v, w, d, r, z, b, e) =
      template_unlimited filled (base_template crypto.now crypto.serial filled signer.public) u
        (sym (if_true args.ca _ _ ca) ∙ p) limit in
    let shape : record (unlimited crypto args.ca u) { signature_algorithm = algorithm } ≡ root =
      ground arith in
    let bare : unlimited crypto args.ca u
        ≡ record u { key_usage = ca_usage; ext_key_usage = []; dns_names = []; ip_addresses = [] } =
      if_true args.ca _ _ ca in
    root_issues root u t algorithm now
      (ap (λ (c : Certificate). record c { signature_algorithm = algorithm }) (sym bare) ∙ shape) v
      (w ∙ ca) (d ∙ domains) (r ∙ ranges) z started running

ca_template-valid :
    (args : Args) (t u : Certificate)
    → ca_template args t ≡ ok u
    → u.basic_constraints_valid ≡ t.basic_constraints_valid
unfolding ca_template limit_path
ca_template-valid args t u h =
    let (limited, p, h1) =
      >>=-eq-ok (limit_path args.max_path_len (record t { key_usage = ca_usage })) _ h in
    let (v, q, h2) = >>=-eq-ok (check_permitted args.permitted_dns_domains) _ h1 in ground arith

-- The template of a root for a key on a token is a CA's, which is encoded and may sign certificates
-- and CRLs.
pub self_signed_template-is_ca :
    (crypto : Crypto) (args : Args) (signer : Signer) (root : Certificate)
    → args.ca ≡ true
    → self_signed_template crypto args signer ≡ ok root
    → (root.is_ca ≡ true) × (root.key_usage ≡ ca_usage) × (root.basic_constraints_valid ≡ true)
unfolding self_signed_template unlimited fill_defaults new_certificate_template
self_signed_template-is_ca crypto args signer root ca h =
    let filled = fill_defaults args in
    let (u, p, h1) =
      >>=-eq-ok
        (new_certificate_template crypto.parse_address crypto.now crypto.serial filled
          signer.public)
        _ h in
    let (algorithm, q, h2) = >>=-eq-ok (signature_algorithm signer.public args.code_signing) _ h1 in
    let role =
      new_certificate_template-Role crypto.parse_address crypto.now crypto.serial filled
        signer.public u p in
    let bare : unlimited crypto args.ca u
        ≡ record u { key_usage = ca_usage; ext_key_usage = []; dns_names = []; ip_addresses = [] } =
      if_true args.ca _ _ ca in
    let shape : record (unlimited crypto args.ca u) { signature_algorithm = algorithm } ≡ root =
      ground arith in
    (
      sym (ap (λ (c : Certificate). c.is_ca) shape)
          ∙ ap (λ (c : Certificate). c.is_ca) bare
          ∙ role.authority
          ∙ ca,
      sym (ap (λ (c : Certificate). c.key_usage) shape)
          ∙ ap (λ (c : Certificate). c.key_usage) bare,
      sym (ap (λ (c : Certificate). c.basic_constraints_valid) shape)
          ∙ ap (λ (c : Certificate). c.basic_constraints_valid) bare
          ∙ ca_template-valid filled (base_template crypto.now crypto.serial filled signer.public) u
              (sym (if_true args.ca _ _ ca) ∙ p),
    )
