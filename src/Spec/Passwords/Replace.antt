-- ===== src/Spec/Passwords/Replace.antt =====
-- What `ReplacePFXPasswords` of pkg/certtool/spec.go does to a tree.
use certtool.Base.{◌≡◌, refl, false, [], is_empty, arith}
use certtool.Base.Text.{Text}
use certtool.Spec.{SpecFields, CertificateSpec, spec, Specs, no_specs, add_spec}
use certtool.Spec.Validate.{spec_pfx}
use certtool.Spec.Passwords.{
  names_of, names_in, holds_password, writes_unprotected, specs_with_pfx_password,
  specs_with_unprotected_pfx, replace_fields, replace_in, replace_pfx_passwords,
}

no_password_left : (env : Text) (f : SpecFields) → holds_password (replace_fields env f) ≡ false
unfolding replace_fields
no_password_left env f = ground arith

name_kept : (env : Text) (f : SpecFields) → (replace_fields env f).common_name ≡ f.common_name
unfolding replace_fields
name_kept env f = ground arith

pfx_kept : (env : Text) (f : SpecFields) → spec_pfx (replace_fields env f) ≡ spec_pfx f
unfolding replace_fields spec_pfx
pfx_kept env f = ground arith

protection_kept :
    (env : Text) (f : SpecFields)
    → is_empty env ≡ false
    → writes_unprotected (replace_fields env f) ≡ writes_unprotected f
unfolding replace_fields
protection_kept env f e = rw (pfx_kept env f) (ground arith)

mutual
  unfolding names_of replace_in

  no_names_of : (env : Text) (s : CertificateSpec) → names_of holds_password (replace_in env s) ≡ []
  no_names_of env (spec f cs) = rw (no_password_left env f) (no_names_in env cs)

  no_names_in :
      (env : Text) (ss : Specs) → names_in holds_password (replace_pfx_passwords env ss) ≡ []
  no_names_in env no_specs = refl
  no_names_in env (add_spec s ss) = rw (no_names_of env s) (no_names_in env ss)

-- After `ReplacePFXPasswords` no spec of the tree holds a password in plain text.
replace_pfx_passwords-none_left :
    (env : Text) (ss : Specs) → specs_with_pfx_password (replace_pfx_passwords env ss) ≡ []
unfolding specs_with_pfx_password
replace_pfx_passwords-none_left env ss = no_names_in env ss

mutual
  unfolding names_of replace_in

  same_names_of :
      (env : Text) (s : CertificateSpec)
      → is_empty env ≡ false
      → names_of writes_unprotected (replace_in env s) ≡ names_of writes_unprotected s
  same_names_of env (spec f cs) e =
      rw (protection_kept env f e, name_kept env f, same_names_in env cs e)

  same_names_in :
      (env : Text) (ss : Specs)
      → is_empty env ≡ false
      → names_in writes_unprotected (replace_pfx_passwords env ss) ≡ names_in writes_unprotected ss
  same_names_in env no_specs e = refl
  same_names_in env (add_spec s ss) e = rw (same_names_of env s e, same_names_in env ss e)

-- `ReplacePFXPasswords` with the name of a variable leaves protected what was, and nothing more.
replace_pfx_passwords-protection :
    (env : Text) (ss : Specs)
    → is_empty env ≡ false
    → specs_with_unprotected_pfx (replace_pfx_passwords env ss) ≡ specs_with_unprotected_pfx ss
unfolding specs_with_unprotected_pfx
replace_pfx_passwords-protection env ss e = same_names_in env ss e

-- After `ReplacePFXPasswords` with the name of a variable no spec of the tree holds a password in
-- plain text, and a .pfx is protected exactly where it was.
pub replace_pfx_passwords_lem :
    (env : Text) (ss : Specs)
    → is_empty env ≡ false
    → (specs_with_pfx_password (replace_pfx_passwords env ss) ≡ [])
      × (specs_with_unprotected_pfx (replace_pfx_passwords env ss) ≡ specs_with_unprotected_pfx ss)
replace_pfx_passwords_lem env ss e =
    (replace_pfx_passwords-none_left env ss, replace_pfx_passwords-protection env ss e)
