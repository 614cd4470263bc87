-- ===== src/OrderToCash/Hosts.antt =====
-- contracts/contractpacks/ordertocash/pack.go: the search for private topology in payloads. It differs
-- from that of contracts/exchange/exchange.go in its strings: hosts and addresses count, too.
pub mod Stricter
use Prim.Native.Char.{Char, code}
use Prim.Native.String.{[], ◌∷◌}
use mathlib.Core.List
use xx_federation_contracts.Base.{
  ℕ, String, Bool, true, false, ◌&&◌, ◌||◌, not, List, map, Option, none, some, any, ◌==◌, nat_eq,
  is_empty, if◌then◌else◌,
}
use xx_federation_contracts.Base.Cut.{contains, cut}
use xx_federation_contracts.Base.Text.{trim_space, is_nil}
use xx_federation_contracts.Exchange.Payload.{fold}
use xx_federation_contracts.Exchange.Topology.{
  Json, Items, Fields, null, bool, number, text, array, object, nil, cons, end, field, codes,
  to_lower, same_codes, contains_text, drop_separators,
}
use xx_federation_contracts.OrderToCash.Markers.{topology_keys, markers, private_suffixes}

-- What is not under the repository: `url.Parse` (of a text that parses with a host, the host and
-- `Hostname()`), `net.SplitHostPort` (the host), `net.ParseIP` with `IsPrivate`, `IsLoopback` or
-- `IsLinkLocalUnicast` (of a lower-case text's code points), and the matches of `ipv4Pattern`.
pub record Network : Type 0 where
  pub url_host : String → Option (String × String)
  pub split_host_port : String → Option String
  pub is_private_ip : List ℕ → Bool
  pub ipv4_matches : String → List String

abbrev is_bracket : ℕ → Bool
is_bracket c = nat_eq c b'[' || nat_eq c b']'

unfoldable pub trim_brackets_left : String → String
trim_brackets_left [] = []
trim_brackets_left (c ∷ s) = if is_bracket (code c) then trim_brackets_left s else c ∷ s

unfoldable pub trim_brackets_right : String → String
trim_brackets_right [] = []
trim_brackets_right (c ∷ s) =
    let rest = trim_brackets_right s in if is_bracket (code c) && is_nil rest then [] else c ∷ rest

-- `strings.Trim(s, "[]")`
unfoldable pub trim_brackets : String → String
unfolding trim_brackets_left trim_brackets_right
trim_brackets s = trim_brackets_right (trim_brackets_left s)

abbrev after_bracket : Option (String × String) → Option String
after_bracket none = none
after_bracket (some (inside, rest)) = if inside == "" then none else some inside

-- `value[1:end]`, of a value that starts with "[" and has a "]" after at least one character.
unfoldable pub bracketed : String → Option String
bracketed [] = none
bracketed (c ∷ s) = if nat_eq (code c) b'[' then after_bracket (cut "]" s) else none

abbrev pub first_part : String → Option (String × String) → String
first_part s none = s
first_part s (some (before, after)) = before

abbrev pub without_port : String → Option (String × String) → String
without_port s none = s
without_port s (some (before, after)) = if before == "" || contains ":" after then s else before

-- `strings.HasSuffix`
unfoldable pub has_suffix : List ℕ → List ℕ → Bool
unfolding same_codes
has_suffix List.[] suffix = is_empty suffix
has_suffix (List.◌∷◌ c s) suffix = same_codes (List.◌∷◌ c s) suffix || has_suffix s suffix

-- `privateTopologyKey`
unfoldable pub topology_key : String → Bool
unfolding drop_separators to_lower same_codes
topology_key key =
    let normalized = map to_lower (drop_separators (codes (trim_space key))) in
    any (λ k. same_codes normalized (codes k)) topology_keys

module _ (network : Network) where
  open network use {url_host, split_host_port, is_private_ip, ipv4_matches}

  -- `candidateHost` after `url.Parse` and the brackets: the text before a slash, without its port.
  unfoldable pub plain_host : String → Option String → String
  unfolding trim_brackets
  plain_host host (some name) = name
  plain_host host none = trim_brackets (without_port host (cut ":" host))

  abbrev bare_host : String → Option String → String
  bare_host value (some inside) = inside
  bare_host value none =
      let host = first_part value (cut "/" value) in plain_host host (split_host_port host)

  abbrev pub hostname : String → Option String → String
  hostname name none = name
  hostname name (some host) = host

  abbrev host_of : String → Option (String × String) → String
  host_of value none = bare_host value (bracketed value)
  host_of value (some (host, name)) = hostname name (split_host_port host)

  -- `candidateHost`
  unfoldable pub candidate_host : String → String
  unfolding bracketed plain_host
  candidate_host value = host_of value (url_host value)

  -- `privateHost` of the trimmed host in lower case.
  unfoldable pub private_name : List ℕ → Bool
  unfolding has_suffix fold same_codes
  private_name host =
      not (is_empty host)
      && (same_codes (map fold host) (codes "localhost")
          || any (λ suffix. has_suffix host (codes suffix)) private_suffixes
          || is_private_ip host)

  -- `privateHost`
  unfoldable pub private_host : String → Bool
  unfolding private_name to_lower trim_brackets
  private_host host = private_name (map to_lower (codes (trim_brackets (trim_space host))))

  -- `privateTopologyString`
  unfoldable pub private_string : String → Bool
  unfolding private_host candidate_host to_lower contains_text
  private_string value =
      let trimmed = trim_space value in
      let host = candidate_host trimmed in
      not (is_nil trimmed)
      && ((not (host == "") && private_host host)
          || any private_host (ipv4_matches trimmed)
          || any (λ marker. contains_text (map to_lower (codes trimmed)) (codes marker)) markers)

  -- `containsPrivateTopology`; the range over a Go map has no order, and the answer none either.
  unfoldable mutual
    unfolding private_string topology_key

    pub private_value : Json → Bool
    private_value null = false
    private_value (bool b) = false
    private_value (number n) = false
    private_value (text s) = private_string s
    private_value (array xs) = private_items xs
    private_value (object fs) = private_fields fs

    pub private_items : Items → Bool
    private_items nil = false
    private_items (cons x xs) = private_value x || private_items xs

    pub private_fields : Fields → Bool
    private_fields end = false
    private_fields (field k v fs) = (topology_key k || private_value v) || private_fields fs
