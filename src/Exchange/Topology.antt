-- ===== src/Exchange/Topology.antt =====
-- contracts/exchange/exchange.go: payload checks and the search for private network topology.
use Prim.Native.Char.{code}
use xx_federation_contracts.Base.{
  ℕ, ◌+◌, String, Bool, true, false, ◌&&◌, ◌||◌, not, List, [], ◌∷◌, map, leb, nat_eq, any,
  is_empty, if◌then◌else◌,
}
use xx_federation_contracts.Base.Text.{trim_space, is_nil}

-- What `json.Unmarshal` yields for a target of type `any`.
mutual
  pub data Json : Type 0 where
    null : Json
    bool : Bool → Json
    number : String → Json
    text : String → Json
    array : Items → Json
    object : Fields → Json

  pub data Items : Type 0 where
    nil : Items
    cons : Json → Items → Items

  pub data Fields : Type 0 where
    end : Fields
    field : String → Json → Fields → Fields

abbrev pub codes : String → List ℕ
codes String.[] = []
codes (String.◌∷◌ letter rest) = code letter ∷ codes rest

-- `strings.ToLower`, for what is compared with ASCII texts: the two letters outside ASCII whose
-- lower case is an ASCII letter are mapped, and the others stand for themselves.
unfoldable pub to_lower : ℕ → ℕ
to_lower c =
    if leb b'A' c && leb c b'Z'
    then c + 32
    else if nat_eq c 0x212a
    then b'k'
    else if nat_eq c 0x130
    then b'i'
    else c

unfoldable pub same_codes : List ℕ → List ℕ → Bool
same_codes [] [] = true
same_codes (a ∷ as') (b ∷ bs) = nat_eq a b && same_codes as' bs
same_codes _ _ = false

unfoldable pub has_prefix : List ℕ → List ℕ → Bool
has_prefix s [] = true
has_prefix [] (m ∷ ms) = false
has_prefix (c ∷ s) (m ∷ ms) = nat_eq c m && has_prefix s ms

-- `strings.Contains`
unfoldable pub contains_text : List ℕ → List ℕ → Bool
unfolding has_prefix
contains_text [] marker = is_empty marker
contains_text (c ∷ s) marker = has_prefix (c ∷ s) marker || contains_text s marker

-- `strings.ReplaceAll(s, x, "")` for the one-character texts "_", "-" and ".", in turn.
unfoldable pub drop_separators : List ℕ → List ℕ
drop_separators [] = []
drop_separators (c ∷ s) =
    let rest = drop_separators s in
    if nat_eq c b'_' || nat_eq c b'-' || nat_eq c b'.' then rest else c ∷ rest

abbrev pub private_keys : List String
private_keys =
    "meship" ∷ "privateip" ∷ "internalip" ∷ "lanip" ∷ "hostip" ∷ "wireguardendpoint" ∷ "endpoint"
    ∷ "peerbundle" ∷ "hostname" ∷ "internalhostname" ∷ "privatehostname" ∷ "libp2pmultiaddr"
    ∷ "multiaddr" ∷ "repopath" ∷ []

unfoldable pub private_topology_key : String → Bool
unfolding drop_separators to_lower same_codes
private_topology_key key =
    let normalized = map to_lower (drop_separators (codes (trim_space key))) in
    any (λ k. same_codes normalized (codes k)) private_keys

abbrev pub private_markers : List String
private_markers =
    "fd00:" ∷ "fc00:" ∷ "fe80:" ∷ "localhost" ∷ ".local" ∷ ".internal" ∷ ".lan" ∷ ".corp" ∷ "10.0."
    ∷ "10.1." ∷ "10.2." ∷ "10.3." ∷ "10.4." ∷ "10.5." ∷ "10.6." ∷ "10.7." ∷ "10.8." ∷ "10.9."
    ∷ "192.168." ∷ "172.16." ∷ "172.17." ∷ "172.18." ∷ "172.19." ∷ "172.20." ∷ "172.21." ∷ "172.22."
    ∷ "172.23." ∷ "172.24." ∷ "172.25." ∷ "172.26." ∷ "172.27." ∷ "172.28." ∷ "172.29." ∷ "172.30."
    ∷ "172.31." ∷ []

unfoldable pub private_topology_string : String → Bool
unfolding to_lower contains_text
private_topology_string value =
    let trimmed = trim_space value in
    not (is_nil trimmed)
    && any (λ marker. contains_text (map to_lower (codes trimmed)) (codes marker)) private_markers

-- The range over a Go map has no order; the answer does not depend on it.
unfoldable mutual
  pub private_topology_value : Json → Bool
  private_topology_value null = false
  private_topology_value (bool b) = false
  private_topology_value (number n) = false
  private_topology_value (text s) = private_topology_string s
  private_topology_value (array xs) = private_topology_items xs
  private_topology_value (object fs) = private_topology_fields fs

  pub private_topology_items : Items → Bool
  private_topology_items nil = false
  private_topology_items (cons x xs) = private_topology_value x || private_topology_items xs

  pub private_topology_fields : Fields → Bool
  private_topology_fields end = false
  private_topology_fields (field k v fs) =
      private_topology_key k || (private_topology_value v || private_topology_fields fs)
