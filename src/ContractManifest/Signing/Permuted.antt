-- ===== src/ContractManifest/Signing/Permuted.antt =====
-- contracts/contractmanifest/manifest.go: the hash and the order of the contracts.
use xx_federation_contracts.Base.{List}
