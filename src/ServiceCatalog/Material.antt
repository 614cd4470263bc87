-- ===== src/ServiceCatalog/Material.antt =====
-- contracts/servicecatalog/servicecatalog.go: the search for private topology and secrets.
use xx_federation_contracts.Base.{
  ℕ, String, Bool, false, ◌&&◌, ◌||◌, not, List, [], ◌∷◌, map, Option, none, some, any, ◌==◌,
  if◌then◌else◌,
}
use xx_federation_contracts.Base.Cut.{cut}
use xx_federation_contracts.Base.Maps.{or_else}
use xx_federation_contracts.Base.Text.{trim_space, is_nil}
use xx_federation_contracts.Exchange.Payload.{fold}
use xx_federation_contracts.Exchange.Topology.{
  Json, Items, Fields, null, bool, number, text, array, object, nil, cons, end, field, codes,
  to_lower, same_codes, contains_text, has_prefix, drop_separators,
}
use xx_federation_contracts.OrderToCash.Hosts.{
  Network, bracketed, first_part, without_port, trim_brackets, has_suffix,
}

abbrev pub secret_keys : List String
secret_keys =
    "meship" ∷ "privateip" ∷ "wireguardendpoint" ∷ "endpoint" ∷ "peerbundle" ∷ "libp2pmultiaddr"
    ∷ "multiaddr" ∷ "hostname" ∷ "internalhostname" ∷ "privatehostname" ∷ "repopath" ∷ "token"
    ∷ "secret" ∷ "credential" ∷ "password" ∷ "apikey" ∷ "accesskey" ∷ "servicetoken" ∷ "bearer" ∷ []

abbrev pub lower_prefixes : List String
lower_prefixes = "bearer " ∷ "basic " ∷ "token:" ∷ "secret:" ∷ []

abbrev pub secret_prefixes : List String
secret_prefixes = "sk-" ∷ "xoxb-" ∷ "xoxp-" ∷ "ghp_" ∷ "github_pat_" ∷ "AKIA" ∷ []

abbrev pub path_prefixes : List String
path_prefixes = "/Users/" ∷ "/var/" ∷ []

-- The suffixes of `privateString`.
abbrev pub host_suffixes : List String
host_suffixes = ".local" ∷ ".internal" ∷ ".lan" ∷ ".corp" ∷ []

-- `privateKey`
unfoldable pub private_key : String → Bool
unfolding drop_separators to_lower same_codes
private_key key =
    let normalized = map to_lower (drop_separators (codes key)) in
    any (λ k. same_codes normalized (codes k)) secret_keys

-- `secretLikeValue`
unfoldable pub secret_like_value : String → Bool
unfolding has_prefix contains_text to_lower
secret_like_value value =
    any (λ p. has_prefix (map to_lower (codes value)) (codes p)) lower_prefixes
    || any (λ p. has_prefix (codes value) (codes p)) secret_prefixes
    || contains_text (codes value) (codes "-----BEGIN ")

module _ (network : Network) where
  open network use {url_host, split_host_port, is_private_ip, ipv4_matches}

  -- `candidateHost` from the brackets on.
  abbrev bare : String → Option String → String
  bare value (some inside) = inside
  bare value none =
      let host = first_part value (cut "/" value) in without_split host (split_host_port host)
    where
      without_split : String → Option String → String
      without_split host (some name) = name
      without_split host none = without_port host (cut ":" host)

  abbrev host_name : String → Option (String × String) → String
  host_name value none = bare value (bracketed value)
  host_name value (some (host, name)) = or_else name (split_host_port host)

  -- `candidateHost`
  unfoldable pub catalog_host : String → String
  unfolding bracketed
  catalog_host value = host_name value (url_host value)

  -- The tests of `privateString` on the host in lower case.
  unfoldable pub private_host_name : List ℕ → Bool
  unfolding has_suffix fold same_codes
  private_host_name host =
      same_codes (map fold host) (codes "localhost")
      || any (λ suffix. has_suffix host (codes suffix)) host_suffixes
      || is_private_ip host

  -- `privateString`
  unfoldable pub private_text : String → Bool
  unfolding secret_like_value contains_text has_prefix catalog_host private_host_name to_lower
      trim_brackets
  private_text value =
      let trimmed = trim_space value in
      let host = catalog_host trimmed in
      not (is_nil trimmed)
      && (secret_like_value trimmed
          || contains_text (codes trimmed) (codes "/.git")
          || any (λ p. has_prefix (codes trimmed) (codes p)) path_prefixes
          || (not (host == "") && private_host_name (map to_lower (codes (trim_brackets host)))))

  -- `containsPrivateMaterial`
  unfoldable mutual
    unfolding private_text private_key

    pub private_material : Json → Bool
    private_material null = false
    private_material (bool b) = false
    private_material (number n) = false
    private_material (text s) = private_text s
    private_material (array xs) = material_items xs
    private_material (object fs) = material_fields fs

    pub material_items : Items → Bool
    material_items nil = false
    material_items (cons x xs) = private_material x || material_items xs

    pub material_fields : Fields → Bool
    material_fields end = false
    material_fields (field k v fs) = (private_key k || private_material v) || material_fields fs

  -- `PublicText`
  unfoldable pub public_text : String → String
  unfolding private_material
  public_text value = if private_material (text (trim_space value)) then "" else trim_space value
