-- ===== src/OrderToCash/Markers.antt =====
-- contracts/contractpacks/ordertocash/pack.go: the keys and the texts that tell private topology.
use xx_federation_contracts.Base.{String, List, [], ◌∷◌}

-- The cases of `privateTopologyKey`.
abbrev pub topology_keys : List String
topology_keys =
    "meship" ∷ "privateip" ∷ "internalip" ∷ "lanip" ∷ "hostip" ∷ "wireguardendpoint" ∷ "endpoint"
    ∷ "peerbundle" ∷ "hostname" ∷ "internalhostname" ∷ "privatehostname" ∷ "libp2pmultiaddr"
    ∷ "multiaddr" ∷ "repopath" ∷ []

-- `privateMarkers`
abbrev pub markers : List String
markers =
    "fd00:" ∷ "fc00:" ∷ "fe80:" ∷ "::1" ∷ "localhost" ∷ ".local" ∷ ".internal" ∷ ".lan" ∷ ".corp"
    ∷ "10.0." ∷ "10.1." ∷ "10.2." ∷ "10.3." ∷ "10.4." ∷ "10.5." ∷ "10.6." ∷ "10.7." ∷ "10.8."
    ∷ "10.9." ∷ "192.168." ∷ "172.16." ∷ "172.17." ∷ "172.18." ∷ "172.19." ∷ "172.20." ∷ "172.21."
    ∷ "172.22." ∷ "172.23." ∷ "172.24." ∷ "172.25." ∷ "172.26." ∷ "172.27." ∷ "172.28." ∷ "172.29."
    ∷ "172.30." ∷ "172.31." ∷ []

-- The suffixes of `privateHost`.
abbrev pub private_suffixes : List String
private_suffixes = ".local" ∷ ".internal" ∷ ".lan" ∷ ".corp" ∷ []
