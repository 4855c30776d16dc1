-- ===== src/Host/Names.antt =====
-- `GetHostnames` and `subjectAltNames` of pkg/certtool/certtool.go.
pub mod Hostnames
use certtool.Base.{
  ℕ, ◌≡◌, Bool, true, false, ◌||◌, not, if◌then◌else◌, Option, none, some, List, [], ◌∷◌, map,
  is_empty, Outcome, ok, err, ◌>>=◌, ◌>>◌,
}
use certtool.Base.Text.{
  Text, same, trim_space, trim_suffix, to_lower, mem_text, sort_texts, text_lt,
}
use certtool.Net.Address.{parse_ip}
use certtool.Net.Print.{ip_string}
use certtool.Failure.{Failure}
use certtool.Host.Valid.{host_without_port, validate_hostname}

-- hostWithoutPort(strings.TrimSpace(hostname))
unfoldable pub clean : Text → Text
clean hostname = host_without_port (trim_space hostname)

-- the loop of GetHostnames: `seen` holds what was appended
unfoldable pub unseen_hosts : List Text → List Text → List Text
unfolding mem_text
unseen_hosts seen [] = []
unseen_hosts seen (hostname ∷ hostnames) =
    let host = clean hostname in
    let skip = unseen_hosts seen hostnames in
    let keep = host ∷ unseen_hosts (host ∷ seen) hostnames in
    if is_empty host || mem_text host seen then skip else keep

unfoldable pub get_hostnames : List Text → List Text
unfolding unseen_hosts sort_texts
get_hostnames hostnames = sort_texts (unseen_hosts [] hostnames)

-- The DNS names and the IP addresses of a certificate.
pub record AltNames : Type 0 where
  pub dns_names : List Text
  pub ip_addresses : List ℕ

add_ip : ℕ → AltNames → AltNames
add_ip ip names = record names { ip_addresses = ip ∷ names.ip_addresses }

add_dns : Text → AltNames → AltNames
add_dns host names = record names { dns_names = host ∷ names.dns_names }

-- one round of the loop behind its checks; `rest` is the loop on the other hostnames
alt_step :
    List Text → Text → (List Text → Outcome Failure AltNames) → Option ℕ → Outcome Failure AltNames
unfolding add_ip add_dns mem_text
alt_step seen host rest (some ip) =
    let key = ip_string ip in
    if mem_text key seen then rest seen else (do names ← rest (key ∷ seen); ok (add_ip ip names))
alt_step seen host rest none =
    let key = to_lower host in
    if mem_text key seen then rest seen else (do names ← rest (key ∷ seen); ok (add_dns host names))

unfoldable pub alt_names : List Text → List Text → Outcome Failure AltNames
unfolding alt_step
alt_names [] seen = ok (record { dns_names = []; ip_addresses = [] })
alt_names (hostname ∷ hostnames) seen =
    let host = trim_suffix b'.' (clean hostname) in
    let skip = alt_names hostnames seen in
    let take = alt_step seen host (alt_names hostnames) (parse_ip host) in
    if is_empty (trim_space hostname) then skip else validate_hostname hostname >> take

-- sort.Slice by the addresses' texts, which differ
unfoldable pub insert_ip : ℕ → List ℕ → List ℕ
insert_ip x [] = x ∷ []
insert_ip x (y ∷ ys) =
    let rest = insert_ip x ys in
    if text_lt (ip_string y) (ip_string x) then y ∷ rest else x ∷ y ∷ ys

unfoldable pub sort_ips : List ℕ → List ℕ
unfolding insert_ip
sort_ips [] = []
sort_ips (x ∷ xs) = insert_ip x (sort_ips xs)

unfoldable pub subject_alt_names : List Text → Outcome Failure AltNames
unfolding alt_names sort_ips sort_texts
subject_alt_names hostnames = do
  names ← alt_names hostnames []
  ok (record { dns_names = sort_texts names.dns_names; ip_addresses = sort_ips names.ip_addresses })
