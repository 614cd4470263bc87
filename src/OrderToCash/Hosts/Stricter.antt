-- ===== src/OrderToCash/Hosts/Stricter.antt =====
-- contracts/contractpacks/ordertocash/pack.go and contracts/exchange/exchange.go: the two searches for
-- private topology.
use xx_federation_contracts.Base.{◌≡◌, String, true, false, arith}
use xx_federation_contracts.Exchange.Topology.{
  Json, Items, Fields, null, bool, number, text, array, object, nil, cons, end, field,
  private_topology_string, private_topology_value, private_topology_items, private_topology_fields,
  private_topology_key,
}
use xx_federation_contracts.OrderToCash.Hosts.{
  Network, private_string, private_value, private_items, private_fields, topology_key,
}

key_stricter : (k : String) → private_topology_key k ≡ true → topology_key k ≡ true
unfolding private_topology_key topology_key
key_stricter k h = h

module _ (network : Network) where
  string_stricter :
      (s : String) → private_topology_string s ≡ true → private_string network s ≡ true
  unfolding private_topology_string private_string
  string_stricter s h = ground arith

  mutual
    unfolding private_topology_value private_value

    value_stricter : (v : Json) → private_topology_value v ≡ true → private_value network v ≡ true
    value_stricter null h = h
    value_stricter (bool b) h = h
    value_stricter (number n) h = h
    value_stricter (text s) h = string_stricter s h
    value_stricter (array xs) h = items_stricter xs h
    value_stricter (object fs) h = fields_stricter fs h

    items_stricter :
        (xs : Items) → private_topology_items xs ≡ true → private_items network xs ≡ true
    items_stricter nil h = h
    items_stricter (cons x xs) h = ground (arith, value_stricter x, items_stricter xs)

    fields_stricter :
        (fs : Fields) → private_topology_fields fs ≡ true → private_fields network fs ≡ true
    fields_stricter end h = h
    fields_stricter (field k v fs) h =
        ground (arith, key_stricter k, value_stricter v, fields_stricter fs)

  -- A value that passes the pack's search for private topology passes the exchange's: the exchange
  -- refuses no payload for its topology that the pack has let pass.
  pub private_value-private_topology_value :
      (v : Json) → private_value network v ≡ false → private_topology_value v ≡ false
  private_value-private_topology_value v h = ground (arith, value_stricter v)
