-- ===== src/Spec/Validate/Accepts.antt =====
-- The trees that `validateSpec` of pkg/certtool/spec.go accepts.
use certtool.Base.{
  ◌≡◌, refl, ◌↔◌, true, false, ◌&&◌, ◌||◌, not, xor, Option, List, [], ◌∷◌, is_empty, All, ok,
  is_ok, refuse, >>=-eq-ok, refuse-eq-ok, arith,
}
use certtool.Base.Text.{Text}
use certtool.Host.Valid.{Address, validate_hostname, validate_email_address}
use certtool.Spec.{
  SpecFields, CertificateSpec, spec, Specs, no_specs, add_spec, fields_of, has_specs,
}
use certtool.Spec.Validate.{
  validate_filename, spec_pfx, parse_ip_ranges, validate_hostnames, below_no_limit,
  has_ca_constraints, validate_emails, validate_names, validate_purpose, validate_spec,
  validate_children, validate_all,
}

-- What the fields of a spec with children `cs` must say.
pub record FieldsValid (parse_address : Text → Option Address) (f : SpecFields) (cs : Specs)
    : Type 0 where
  pub named : is_empty f.common_name ≡ false
  pub only_cas_sign : (has_specs cs && not f.certificate_authority) ≡ false
  pub file : validate_filename f ≡ ok tt
  pub pfx_from_target : (not (is_empty f.pfx) && f.code_signing) ≡ false
  pub pfx_known : is_ok (spec_pfx f) ≡ true
  pub one_password : (is_empty f.pfx_password || is_empty f.pfx_password_env) ≡ true
  pub hosts : All (λ h. validate_hostname h ≡ ok tt) f.hostnames
  pub emails_on_leaf :
      (not (is_empty f.email_addresses) && (f.certificate_authority || f.code_signing)) ≡ false
  pub ssh_on_leaf : (f.ssh_public_key && f.certificate_authority) ≡ false
  pub emails : All (λ e. validate_email_address parse_address e ≡ ok tt) f.email_addresses
  pub constraints_on_ca : (not f.certificate_authority && has_ca_constraints f) ≡ false
  pub path_len : below_no_limit f.max_path_len ≡ false
  pub ranges : is_ok (parse_ip_ranges f.permitted_ip_ranges) ≡ true

-- A tree whose specs are valid, and whose children all sign code just when their parent does.
mutual
  pub data IsValid (parse_address : Text → Option Address) : CertificateSpec → Type 0 where
    valid :
        {f : SpecFields} {cs : Specs}
        → FieldsValid parse_address f cs
        → AreValid parse_address f cs
        → IsValid parse_address (spec f cs)

  pub data AreValid (parse_address : Text → Option Address) : SpecFields → Specs → Type 0 where
    none_left : {f : SpecFields} → AreValid parse_address f no_specs
    one_more :
        {f : SpecFields} {c : CertificateSpec} {cs : Specs}
        → xor (fields_of c).code_signing f.code_signing ≡ false
        → IsValid parse_address c
        → AreValid parse_address f cs
        → AreValid parse_address f (add_spec c cs)

pub hostnames_iff :
    (hs : List Text) → (validate_hostnames hs ≡ ok tt) ↔ All (λ h. validate_hostname h ≡ ok tt) hs
unfolding validate_hostnames
hostnames_iff [] = (λ h. tt, λ h. refl)
hostnames_iff (x ∷ xs) = (
  λ h.
      let (u, p, q) = >>=-eq-ok (validate_hostname x) (λ _. validate_hostnames xs) h in
      (p, (hostnames_iff xs).0 q),
  λ (p, q). rw p ((hostnames_iff xs).1 q),
)

module _ (parse_address : Text → Option Address) where
  emails_iff :
      (es : List Text)
      → (validate_emails parse_address es ≡ ok tt)
        ↔ All (λ e. validate_email_address parse_address e ≡ ok tt) es
  unfolding validate_emails
  emails_iff [] = (λ h. tt, λ h. refl)
  emails_iff (x ∷ xs) = (
    λ h.
        let (u, p, q) =
          >>=-eq-ok (validate_email_address parse_address x) (λ _. validate_emails parse_address xs)
            h in
        (p, (emails_iff xs).0 q),
    λ (p, q). rw p ((emails_iff xs).1 q),
  )

  names_iff :
      (f : SpecFields) (cs : Specs)
      → (validate_names parse_address f cs ≡ ok tt) ↔ (
          (is_empty f.common_name ≡ false)
          × ((has_specs cs && not f.certificate_authority) ≡ false)
          × (validate_filename f ≡ ok tt)
          × ((not (is_empty f.pfx) && f.code_signing) ≡ false)
          × (is_ok (spec_pfx f) ≡ true)
          × ((is_empty f.pfx_password || is_empty f.pfx_password_env) ≡ true)
          × (validate_hostnames f.hostnames ≡ ok tt))
  unfolding validate_names
  names_iff f cs = (λ h. ground arith, λ (a, b, c, d, e, g, i). ground arith)

  purpose_iff :
      (f : SpecFields)
      → (validate_purpose parse_address f ≡ ok tt) ↔ (
          ((not (is_empty f.email_addresses) && (f.certificate_authority || f.code_signing))
            ≡ false)
          × ((f.ssh_public_key && f.certificate_authority) ≡ false)
          × (validate_emails parse_address f.email_addresses ≡ ok tt)
          × ((not f.certificate_authority && has_ca_constraints f) ≡ false)
          × (below_no_limit f.max_path_len ≡ false)
          × (is_ok (parse_ip_ranges f.permitted_ip_ranges) ≡ true))
  unfolding validate_purpose
  purpose_iff f = (λ h. ground arith, λ (a, b, c, d, e, g). ground arith)

  fields_sound :
      (f : SpecFields) (cs : Specs)
      → validate_names parse_address f cs ≡ ok tt
      → validate_purpose parse_address f ≡ ok tt
      → FieldsValid parse_address f cs
  fields_sound f cs n p =
      let (a, b, c, d, e, g, i) = (names_iff f cs).0 n in
      let (j, k, l, m, o, q) = (purpose_iff f).0 p in
      record {
        named = a;
        only_cas_sign = b;
        file = c;
        pfx_from_target = d;
        pfx_known = e;
        one_password = g;
        hosts = (hostnames_iff f.hostnames).0 i;
        emails_on_leaf = j;
        ssh_on_leaf = k;
        emails = (emails_iff f.email_addresses).0 l;
        constraints_on_ca = m;
        path_len = o;
        ranges = q;
      }

  names_complete :
      (f : SpecFields) (cs : Specs)
      → FieldsValid parse_address f cs
      → validate_names parse_address f cs ≡ ok tt
  names_complete f cs v = (names_iff f cs).1 (
    v.named,
    v.only_cas_sign,
    v.file,
    v.pfx_from_target,
    v.pfx_known,
    v.one_password,
    (hostnames_iff f.hostnames).1 v.hosts,
  )

  purpose_complete :
      (f : SpecFields) (cs : Specs)
      → FieldsValid parse_address f cs
      → validate_purpose parse_address f ≡ ok tt
  purpose_complete f cs v = (purpose_iff f).1 (
    v.emails_on_leaf,
    v.ssh_on_leaf,
    (emails_iff f.email_addresses).1 v.emails,
    v.constraints_on_ca,
    v.path_len,
    v.ranges,
  )

  mutual
    unfolding validate_spec

    spec_sound :
        (s : CertificateSpec) → validate_spec parse_address s ≡ ok tt → IsValid parse_address s
    spec_sound (spec f cs) h =
        let (u, n, h1) = >>=-eq-ok (validate_names parse_address f cs) _ h in
        let (v, p, h2) = >>=-eq-ok (validate_purpose parse_address f) _ h1 in
        valid (fields_sound f cs n p) (children_sound f cs h2)

    children_sound :
        (f : SpecFields) (cs : Specs)
        → validate_children parse_address f cs ≡ ok tt
        → AreValid parse_address f cs
    children_sound f no_specs h = none_left
    children_sound f (add_spec c cs) h =
        let (u, p, h1) = >>=-eq-ok (refuse (xor (fields_of c).code_signing f.code_signing) _) _ h in
        let (v, q, h2) = >>=-eq-ok (validate_spec parse_address c) _ h1 in
        one_more (refuse-eq-ok _ _ p) (spec_sound c q) (children_sound f cs h2)

  mutual
    unfolding validate_spec

    spec_complete :
        (s : CertificateSpec) → IsValid parse_address s → validate_spec parse_address s ≡ ok tt
    spec_complete (spec f cs) (valid v a) =
        rw (names_complete f cs v, purpose_complete f cs v) (children_complete f cs a)

    children_complete :
        (f : SpecFields) (cs : Specs)
        → AreValid parse_address f cs
        → validate_children parse_address f cs ≡ ok tt
    children_complete f no_specs none_left = refl
    children_complete f (add_spec c cs) (one_more e v a) =
        rw (e, spec_complete c v) (children_complete f cs a)

  -- `validateSpec` accepts exactly the trees all of whose specs are valid in themselves and sign
  -- code just when their parent does.
  pub validate_spec_iff :
      (s : CertificateSpec) → (validate_spec parse_address s ≡ ok tt) ↔ IsValid parse_address s
  validate_spec_iff s = (spec_sound s, spec_complete s)

-- Each spec of a list is valid.
pub data AllValid (parse_address : Text → Option Address) : Specs → Type 0 where
  no_more : AllValid parse_address no_specs
  one_of :
      {s : CertificateSpec} {ss : Specs}
      → IsValid parse_address s
      → AllValid parse_address ss
      → AllValid parse_address (add_spec s ss)

pub validate_all-AllValid :
    (parse_address : Text → Option Address) (ss : Specs)
    → validate_all parse_address ss ≡ ok tt
    → AllValid parse_address ss
unfolding validate_all
validate_all-AllValid parse_address no_specs h = no_more
validate_all-AllValid parse_address (add_spec s ss) h =
    let (u, p, q) =
      >>=-eq-ok (validate_spec parse_address s) (λ _. validate_all parse_address ss) h in
    one_of ((validate_spec_iff parse_address s).0 p) (validate_all-AllValid parse_address ss q)
