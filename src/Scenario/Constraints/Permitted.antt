-- ===== src/Scenario/Constraints/Permitted.antt =====
-- What the name constraints of a scenario's CA permit: `hostnameConstraints` of
-- pkg/certtool/scenario.go, by the names that `applyNameConstraints` lets through.
use certtool.Base.{
  ℕ, ◌≡◌, refl, sym, ap, subst, true, ◌&&◌, ◌==◌, Option, none, some, List, [], ◌∷◌, ◌++◌, Any,
  Any-mono, Bool-cases, ◌↔◌, ◌⊎◌, inl, inr, if_true, if_false, ==→eq, and_true,
}
use certtool.Base.Text.{Text, mem_text, mem_text→Any, Any→mem_text, to_lower, to_lower_idem}
use certtool.Net.Address.{parse_ip}
use certtool.Cert.Constraints.{dot, starts_dot, dns_name_permitted}
use certtool.Cert.Constraints.Dns.{Permits, dns_name_permitted_iff}
use certtool.Scenario.Constraints.{
  clean_host, Constraints, append_new, trim_wildcard, single_range, add_host, add_hosts,
  hostname_constraints,
}

Any-append_new :
    (P : Text → Type 0) (x : Text) (xs : List Text) → Any P (append_new x xs) ↔ (Any P xs ⊎ P x)
unfolding append_new
Any-append_new P x xs = elim (Bool-cases (mem_text x xs)) [
  | inl e ↦ rw e (λ h. inl h, λ h. elim h [ inl a ↦ a | inr p ↦ found xs p (mem_text→Any x xs e) ])
  | inr e ↦ rw e (at_end xs, λ h. elim h [ inl a ↦ before xs a | inr p ↦ last xs p ])
]
  where
    found : (ys : List Text) → P x → Any (λ y. x ≡ y) ys → Any P ys
    found [] p h = h
    found (y ∷ ys) p (inl e) = inl (subst P e p)
    found (y ∷ ys) p (inr h) = inr (found ys p h)

    at_end : (ys : List Text) → Any P (ys ++ x ∷ []) → Any P ys ⊎ P x
    at_end [] (inl p) = inr p
    at_end [] (inr h) = inl h
    at_end (y ∷ ys) (inl p) = inl (inl p)
    at_end (y ∷ ys) (inr h) = elim (at_end ys h) [ inl a ↦ inl (inr a) | inr p ↦ inr p ]

    before : (ys : List Text) → Any P ys → Any P (ys ++ x ∷ [])
    before [] h = elim h [ ]
    before (y ∷ ys) (inl p) = inl p
    before (y ∷ ys) (inr h) = inr (before ys h)

    last : (ys : List Text) → P x → Any P (ys ++ x ∷ [])
    last [] p = inl p
    last (y ∷ ys) p = inr (last ys p)

-- the domain that a hostname adds
unfoldable pub domain_of_host : Text → Text
domain_of_host h = to_lower (trim_wildcard (clean_host h))

-- A hostname that adds a domain, or a range, with the property.
abbrev pub AddsDomain : (Text → Type 0) → Text → Type 0
AddsDomain P h = (parse_ip (clean_host h) ≡ none) × P (domain_of_host h)

abbrev pub AddsRange : (Text → Type 0) → Text → Type 0
AddsRange P h = (ip : ℕ) × (parse_ip (clean_host h) ≡ some ip) × P (single_range ip)

module _ {A B C D E : Type 0} where
  -- a first step that adds `D`, and a rest that adds `E`
  then_iff : A ↔ (B ⊎ E) → B ↔ (C ⊎ D) → A ↔ (C ⊎ (D ⊎ E))
  then_iff (f, g) (h, k) = (there, back)
    where
      there : A → C ⊎ (D ⊎ E)
      there a = elim (f a) [
        | inl b ↦ elim (h b) [ inl c ↦ inl c | inr d ↦ inr (inl d) ]
        | inr e ↦ inr (inr e)
      ]

      back : C ⊎ (D ⊎ E) → A
      back (inl c) = g (inl (k (inl c)))
      back (inr (inl d)) = g (inl (k (inr d)))
      back (inr (inr e)) = g (inr e)

module _ (P : Text → Type 0) where
  add_host-domains :
      (host : Text) (r : Option ℕ) (c : Constraints)
      → Any P (add_host host r c).dns
        ↔ (Any P c.dns ⊎ ((r ≡ none) × P (to_lower (trim_wildcard host))))
  unfolding add_host
  add_host-domains host none c =
      let (f, g) = Any-append_new P (to_lower (trim_wildcard host)) c.dns in
      (
        λ h. elim (f h) [ inl a ↦ inl a | inr p ↦ inr (refl, p) ],
        λ h. elim h [ inl a ↦ g (inl a) | inr (e, p) ↦ g (inr p) ],
      )
  add_host-domains host (some ip) c = (λ h. inl h, λ h. elim h [ inl a ↦ a | inr (e, p) ↦ cc ])

  add_host-ranges :
      (host : Text) (r : Option ℕ) (c : Constraints)
      → Any P (add_host host r c).ip
        ↔ (Any P c.ip ⊎ ((ip : ℕ) × (r ≡ some ip) × P (single_range ip)))
  unfolding add_host
  add_host-ranges host none c = (λ h. inl h, λ h. elim h [ inl a ↦ a | inr (ip, e, p) ↦ cc ])
  add_host-ranges host (some ip) c =
      let (f, g) = Any-append_new P (single_range ip) c.ip in
      (
        λ h. elim (f h) [ inl a ↦ inl a | inr p ↦ inr (ip, refl, p) ],
        λ h. elim h [
          | inl a ↦ g (inl a)
          | inr (j, e, p) ↦
              (let same_ip : j ≡ ip = cc in g (inr (subst (λ k. P (single_range k)) same_ip p)))
        ],
      )

  Any-domains :
      (c : Constraints) (hs : List Text)
      → Any P (add_hosts c hs).dns ↔ (Any P c.dns ⊎ Any (AddsDomain P) hs)
  unfolding add_hosts domain_of_host
  Any-domains c [] = (λ h. inl h, λ h. elim h [ inl a ↦ a | inr b ↦ elim b [ ] ])
  Any-domains c (h ∷ hs) =
      let r = parse_ip (clean_host h) in
      then_iff (Any-domains (add_host (clean_host h) r c) hs) (add_host-domains (clean_host h) r c)

  Any-ranges :
      (c : Constraints) (hs : List Text)
      → Any P (add_hosts c hs).ip ↔ (Any P c.ip ⊎ Any (AddsRange P) hs)
  unfolding add_hosts
  Any-ranges c [] = (λ h. inl h, λ h. elim h [ inl a ↦ a | inr b ↦ elim b [ ] ])
  Any-ranges c (h ∷ hs) =
      let r = parse_ip (clean_host h) in
      then_iff (Any-ranges (add_host (clean_host h) r c) hs) (add_host-ranges (clean_host h) r c)

-- a domain permits itself, and the wildcard in front of it
itself_permitted : (t : Text) → Permits (to_lower t) (to_lower t)
itself_permitted t = elim (Bool-cases (starts_dot (to_lower (to_lower t)))) [
  | inl e ↦ inl (e, ([], sym (to_lower_idem t)))
  | inr e ↦ inr (e, inl (sym (to_lower_idem t)))
]

wildcard_permitted : (t : Text) → Permits (b'*' ∷ dot ∷ to_lower t) (to_lower t)
wildcard_permitted t =
    let e = ap (λ (u : Text). b'*' ∷ dot ∷ u) (sym (to_lower_idem t)) in
    elim (Bool-cases (starts_dot (to_lower (to_lower t)))) [
      | inl f ↦ inl (f, (b'*' ∷ dot ∷ [], e))
      | inr f ↦ inr (f, inr (b'*' ∷ [], e))
    ]

own_permitted : (host : Text) → Permits (to_lower host) (to_lower (trim_wildcard host))
unfolding trim_wildcard
own_permitted [] = itself_permitted []
own_permitted (c ∷ []) = itself_permitted (c ∷ [])
own_permitted (c ∷ d ∷ s) = elim (Bool-cases (c == b'*' && d == b'.')) [
  | inl e ↦
      let (p, q) = and_true (c == b'*') (d == b'.') e in
      subst (λ t. Permits (to_lower (c ∷ d ∷ s)) (to_lower t)) (sym (if_true _ _ _ e))
        (subst (λ t. Permits t (to_lower s)) (starred c d (==→eq c b'*' p) (==→eq d b'.' q))
          (wildcard_permitted s))
  | inr e ↦
      subst (λ t. Permits (to_lower (c ∷ d ∷ s)) (to_lower t)) (sym (if_false _ _ _ e))
        (itself_permitted (c ∷ d ∷ s))
]
  where
    starred : (c d : ℕ) → c ≡ b'*' → d ≡ b'.' → b'*' ∷ dot ∷ to_lower s ≡ to_lower (c ∷ d ∷ s)
    starred c d p q = rw p (rw q (unfold to_lower in refl))

own_domain :
    (name : Text) (hs : List Text)
    → Any (λ h. (parse_ip (clean_host h) ≡ none) × (clean_host h ≡ name)) hs
    → Any (AddsDomain (Permits (to_lower name))) hs
unfolding domain_of_host
own_domain name hs =
    Any-mono
      (λ h (e, f). (
        e,
        subst (λ n. Permits (to_lower n) (to_lower (trim_wildcard (clean_host h)))) f
            (own_permitted (clean_host h)),
      ))
      hs

-- The name constraints that a scenario gives a CA permit a name exactly if one of the hostnames, not
-- an address, is the name or a domain of it; among the names are the hostnames themselves, with
-- their wildcards. The ranges are those of the single addresses among the hostnames.
pub hostname_constraints_iff :
    (hs : List Text) (name r : Text)
    → ((dns_name_permitted name (hostname_constraints hs).dns ≡ true)
        ↔ Any (AddsDomain (Permits (to_lower name))) hs)
      × ((mem_text r (hostname_constraints hs).ip ≡ true) ↔ Any (AddsRange (λ s. r ≡ s)) hs)
      × (Any (λ h. (parse_ip (clean_host h) ≡ none) × (clean_host h ≡ name)) hs
          → dns_name_permitted name (hostname_constraints hs).dns ≡ true)
unfolding hostname_constraints
hostname_constraints_iff hs name r =
    let (f, g) = dns_name_permitted_iff name (hostname_constraints hs).dns in
    let (d, e) = Any-domains (Permits (to_lower name)) (record { dns = []; ip = [] }) hs in
    let (u, v) = Any-ranges (λ s. r ≡ s) (record { dns = []; ip = [] }) hs in
    let ranges = (hostname_constraints hs).ip in
    (
      (λ h. from_none (d (f h)), λ h. g (e (inr h))),
      (λ h. from_none (u (mem_text→Any r ranges h)), λ h. Any→mem_text r ranges (v (inr h))),
      λ h. g (e (inr (own_domain name hs h))),
    )
  where
    from_none : {Q : Type 0} → ⊥ ⊎ Q → Q
    from_none (inl b) = elim b [ ]
    from_none (inr q) = q
