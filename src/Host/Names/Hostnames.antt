-- ===== src/Host/Names/Hostnames.antt =====
-- The list that `GetHostnames` of pkg/certtool/certtool.go returns.
use certtool.Base.{
  ◌≡◌, ◌∙◌, false, ◌||◌, ◌&&◌, not, List, [], ◌∷◌, map, is_empty, arith, Bool-cases, inl, inr,
}
use certtool.Base.Text.{
  Text, same_iff, same_refl, mem_text, Ascending, Distinct, mem-sort, sort-Ascending,
}
use certtool.Host.Names.{clean, unseen_hosts, get_hostnames}

-- The loop keeps the hosts that are not empty and not seen.
mem-unseen_hosts :
    (seen hs : List Text) (t : Text)
    → mem_text t (unseen_hosts seen hs)
      ≡ (not (mem_text t seen) && (not (is_empty t) && mem_text t (map clean hs)))
unfolding unseen_hosts
mem-unseen_hosts seen [] t = ground arith
mem-unseen_hosts seen (h ∷ hs) t = ground (
  arith,
  mem-unseen_hosts seen hs t,
  mem-unseen_hosts (clean h ∷ seen) hs t,
  same_iff t (clean h),
)

seen_again : (h : Text) (seen hs : List Text) → mem_text h (unseen_hosts (h ∷ seen) hs) ≡ false
unfolding mem_text
seen_again h seen hs = ground (arith, mem-unseen_hosts (h ∷ seen) hs h, same_refl h)

unseen-Distinct : (seen hs : List Text) → Distinct (unseen_hosts seen hs)
unfolding unseen_hosts
unseen-Distinct seen [] = tt
unseen-Distinct seen (h ∷ hs) = elim (Bool-cases (is_empty (clean h) || mem_text (clean h) seen)) [
  | inl e ↦ rw e (unseen-Distinct seen hs)
  | inr e ↦ rw e (seen_again (clean h) seen hs, unseen-Distinct (clean h ∷ seen) hs)
]

-- `GetHostnames` returns a strictly ascending list, so one without repeats.
get_hostnames-Ascending : (hs : List Text) → Ascending (get_hostnames hs)
unfolding get_hostnames
get_hostnames-Ascending hs = sort-Ascending (unseen_hosts [] hs) (unseen-Distinct [] hs)

-- A text is in the result of `GetHostnames` exactly when it is not empty and is one of the given
-- hostnames without its white space and port.
mem-get_hostnames :
    (hs : List Text) (t : Text)
    → mem_text t (get_hostnames hs) ≡ (not (is_empty t) && mem_text t (map clean hs))
unfolding get_hostnames mem_text
mem-get_hostnames hs t = mem-sort t (unseen_hosts [] hs) ∙ mem-unseen_hosts [] hs t

-- `GetHostnames` returns a strictly ascending list, so one without repeats, that holds exactly the
-- texts that are not empty and are one of the given hostnames without its white space and port.
get_hostnames_lem :
    (hs : List Text)
    → Ascending (get_hostnames hs)
      × ((t : Text)
          → mem_text t (get_hostnames hs) ≡ (not (is_empty t) && mem_text t (map clean hs)))
get_hostnames_lem hs = (get_hostnames-Ascending hs, mem-get_hostnames hs)
