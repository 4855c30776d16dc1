-- ===== src/Generate/Existing/Kept.antt =====
-- The constraints and the path length of a CA that is reused: `reusedCAConstraints` of
-- pkg/certtool/spec.go.
use certtool.Base.{
  ◌≡◌, refl, sym, ap, ◌∙◌, ◌⊎◌, inl, inr, ℤ, pos, negsuc, eq_ℤ, Bool-cases, true, false, ◌&&◌, not,
  Option, none, some, ok, map_err, map_err-eq-ok, >>=-eq-ok, arith, if_false,
}
use certtool.Base.Text.{same, same_iff}
use certtool.Failure.{existing_unchecked}
use certtool.Cert.{Certificate}
use certtool.Cert.Constraints.{inherit_name_constraints}
use certtool.Spec.{SpecFields}
use certtool.Issue.Args.{Args}
use certtool.Generate.Reuse.{
  dns_domains_name, ip_ranges_name, zero_certificate, wanted, wanted_path_len, path_len_of,
  compare_constraints,
}
use certtool.Generate.Existing.{check_constraints}

-- The constraints are the ones of the arguments, or what these inherit from a parent.
pub Inherits : Option Certificate → Args → Certificate → Type 0
Inherits none args want =
    (want.permitted_dns_domains ≡ args.permitted_dns_domains)
    × (want.permitted_ip_ranges ≡ args.permitted_ip_ranges)
Inherits (some parent) args want =
    (own : Certificate) × (own.is_ca ≡ true)
    × (own.permitted_dns_domains ≡ args.permitted_dns_domains)
    × (own.permitted_ip_ranges ≡ args.permitted_ip_ranges)
    × (inherit_name_constraints parent own ≡ ok want)

-- The path length is `n`, or there is none where `n` is -1; a length of 0 counts where it is set.
pub HasPathLen : Certificate → ℤ → Type 0
HasPathLen cert n =
    ((cert.max_path_len ≡ n) × ((eq_ℤ n (pos 0) && not cert.max_path_len_zero) ≡ false))
    ⊎ ((n ≡ negsuc 0) × (cert.max_path_len ≡ pos 0) × (cert.max_path_len_zero ≡ false))

pub KeepsPathLen : Certificate → Option ℤ → Type 0
KeepsPathLen cert none = HasPathLen cert (negsuc 0)
KeepsPathLen cert (some n) = HasPathLen cert n

-- The constraints and the path length are those that the CA would be generated with, each list of
-- constraints by the sorted text that is compared.
pub record KeepsConstraints (args : Args) (cert : Certificate) (parent : Option Certificate)
    : Type 0 where
  pub want : Certificate
  pub inherits : Inherits parent args want
  pub domains :
      dns_domains_name cert.permitted_dns_domains ≡ dns_domains_name want.permitted_dns_domains
  pub ranges : ip_ranges_name cert.permitted_ip_ranges ≡ ip_ranges_name want.permitted_ip_ranges
  pub path_len : KeepsPathLen cert args.max_path_len

wanted-Inherits :
    (parent : Option Certificate) (args : Args) (want : Certificate)
    → wanted parent args ≡ ok want
    → Inherits parent args want
unfolding wanted Inherits
wanted-Inherits none args want h = ground arith
wanted-Inherits (some parent) args want h = (
  record zero_certificate {
    is_ca = true;
    permitted_dns_domains = args.permitted_dns_domains;
    permitted_ip_ranges = args.permitted_ip_ranges;
  },
  refl,
  refl,
  refl,
  h,
)

eq_ℤ-eq : (m n : ℤ) → eq_ℤ m n ≡ true → m ≡ n
eq_ℤ-eq (pos m) (pos n) h = ground arith
eq_ℤ-eq (negsuc m) (negsuc n) h = ground arith
eq_ℤ-eq (pos m) (negsuc n) h = cc
eq_ℤ-eq (negsuc m) (pos n) h = cc

path_len_of-HasPathLen :
    (cert : Certificate) (n : ℤ) → eq_ℤ (path_len_of cert) n ≡ true → HasPathLen cert n
unfolding path_len_of HasPathLen
path_len_of-HasPathLen cert n h =
    elim (Bool-cases (eq_ℤ cert.max_path_len (pos 0) && not cert.max_path_len_zero)) [
      | inl e ↦ inr (
        sym (eq_ℤ-eq (negsuc 0) n (rw e at h)),
        eq_ℤ-eq cert.max_path_len (pos 0) (ground arith),
        ground arith,
      )
      | inr e ↦
          let same_len = eq_ℤ-eq cert.max_path_len n (rw e at h) in
          inl (same_len, rw (sym same_len) e)
    ]

path_len-KeepsPathLen :
    (cert : Certificate) (limit : Option ℤ)
    → eq_ℤ (path_len_of cert) (wanted_path_len limit) ≡ true
    → KeepsPathLen cert limit
unfolding wanted_path_len KeepsPathLen
path_len-KeepsPathLen cert none h = path_len_of-HasPathLen cert (negsuc 0) h
path_len-KeepsPathLen cert (some n) h = path_len_of-HasPathLen cert n h

compared :
    (cert want : Certificate) (limit : Option ℤ)
    → compare_constraints cert want limit ≡ ok tt
    → (same
          (dns_domains_name cert.permitted_dns_domains)
          (dns_domains_name want.permitted_dns_domains)
        ≡ true)
      × (same (ip_ranges_name cert.permitted_ip_ranges) (ip_ranges_name want.permitted_ip_ranges)
          ≡ true)
      × (eq_ℤ (path_len_of cert) (wanted_path_len limit) ≡ true)
unfolding compare_constraints
compared cert want limit h = ground arith

pub check_constraints-KeepsConstraints :
    (f : SpecFields) (args : Args) (cert : Certificate) (parent : Option Certificate)
    → check_constraints f args cert parent ≡ ok tt
    → (f.certificate_authority ≡ false) ⊎ KeepsConstraints args cert parent
unfolding check_constraints
check_constraints-KeepsConstraints f args cert parent h =
    elim (Bool-cases f.certificate_authority) [
      | inr leaf ↦ inl leaf
      | inl ca ↦
          let (want, y, z) =
            >>=-eq-ok (map_err existing_unchecked (wanted parent args)) _
              (sym (if_false (not f.certificate_authority) _ _ (ap not ca)) ∙ h) in
          let (d, g, l) = compared cert want args.max_path_len z in
          inr (record {
            want = want;
            inherits = wanted-Inherits parent args want (map_err-eq-ok existing_unchecked _ y);
            domains = (same_iff _ _).0 d;
            ranges = (same_iff _ _).0 g;
            path_len = path_len-KeepsPathLen cert args.max_path_len l;
          })
    ]
