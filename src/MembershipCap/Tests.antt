-- ===== src/MembershipCap/Tests.antt =====
-- membershipcap: capabilities, revocation lists, registrations and rosters of two peers.
use mathlib.Core.List.{Permᴰ}
use mathlib.Core.List.Permᴰ
use xx_federation_contracts.Base.{
  ℕ, ◌≡◌, refl, true, false, List, [], ◌∷◌, none, some, ◌==◌, if◌then◌else◌, arith, ◌↔◌, Option,
}
use xx_federation_contracts.Base.Int.{pos, add64, sub64, ◌+ℤ◌, ◌<ℤ◌}
use xx_federation_contracts.Base.Maps.{Map, lookup}
use xx_federation_contracts.Base.Bytes.{Bytes, same_bytes, less_bytes}
use xx_federation_contracts.Base.Keyed.{find}
use xx_federation_contracts.Base.Sort.{sort, insert}
use xx_federation_contracts.Base.Toy.{toy, toy_keys, stretch}
use xx_federation_contracts.Base.Codes.{codes, codes-inj}
use xx_federation_contracts.Base.Exec.{ok}
use xx_federation_contracts.MembershipCap.Types.{
  Capability, RevocationEntry, RevocationList, FabricPeerRoster, MeshRegistrationClaim, Codec,
}
use xx_federation_contracts.MembershipCap.Revocation.{check}
use xx_federation_contracts.MembershipCap.Revocation.Fence.{fence, check-fence}
use xx_federation_contracts.MembershipCap.Roster.{
  peer_roster_canonical_bytes, validate, mem_bytes, mesh_key, sorted_roster_entries,
  sorted_tombstones, validate_removed, validate_entries, validate_tombstones, has_path_material,
  verify_roster,
}
use xx_federation_contracts.MembershipCap.Roster.Valid.{IsWellFormed, validate_iff}
use xx_federation_contracts.MembershipCap.Signed.{peer_roster_canonical_bytes_perm}
use xx_federation_contracts.MembershipCap.Registration.{
  Enrolled, to_roster_entry, canonical_ip, challenge_message, validate_claim,
  sign_mesh_registration, as_verified,
}
use xx_federation_contracts.MembershipCap.Registration.Bound.{IsSized, bound, challenge_message-inj}
use xx_federation_contracts.MembershipCap.Registration.Proven.{sign_mesh_registration-as_verified}
use xx_federation_contracts.MembershipCap.Assembly.{
  RosterAssembly, stays, dedup, keep, gather, draft_roster, built, build_fabric_peer_roster,
  assemble_fabric_peer_roster,
}
use xx_federation_contracts.MembershipCap.Assembly.Freshest.{IsFreshest}
use xx_federation_contracts.MembershipCap.Assembly.Draft.{entry_of}
use xx_federation_contracts.MembershipCap.Assembly.Built.{
  build_fabric_peer_roster-IsWellFormed, build_fabric_peer_roster-IsFreshest,
}
use xx_federation_contracts.MembershipCap.Assembly.Order.{build_fabric_peer_roster_perm}
use xx_federation_contracts.MembershipCap.Assembly.Total.{build_fabric_peer_roster_total}
use xx_federation_contracts.MembershipCap.Assembly.Published.{
  assemble_fabric_peer_roster-verify_roster,
}

abbrev codec : Codec
codec = record {
  marshal_capability = λ c. c.libp2p_public_key;
  marshal_list = λ rl. codes rl.fabric_id;
  marshal_roster = λ r. codes r.fabric_id;
  sha256 = λ m. 1 ∷ m;
  utf8 = codes;
  base64_encode = λ bytes. "";
  base64_decode = λ s. none;
  parse_addr = λ s. if s == "" then none else some s;
}

abbrev private_key : Bytes
private_key = stretch 64 (9 ∷ [])

abbrev public_key : Bytes
public_key = stretch 32 private_key

abbrev keyring : Map Bytes
keyring = ("signer", public_key) ∷ []

known : lookup "signer" keyring ≡ some public_key
unfolding lookup
known = refl

abbrev peer_key : ℕ → Bytes
peer_key n = stretch 32 (n ∷ [])

abbrev capability : Capability
capability = record {
  libp2p_public_key = peer_key 1;
  tenant_handle = "h";
  fabric_id = "f";
  capability_epoch = pos 1;
  revocation_generation = pos 2;
  not_after_ms = pos 100;
  signer_key_id = "";
  signature = [];
}

abbrev entry : ℕ → ℕ → RevocationEntry
entry n epoch = record {
  libp2p_public_key = peer_key n;
  capability_epoch = pos epoch;
  revocation_generation = pos 0;
  revoked = false;
}

abbrev entries : List RevocationEntry
entries = entry 2 0 ∷ entry 1 2 ∷ []

abbrev revocations : RevocationList
revocations = record {
  fabric_id = "f";
  list_generation = pos 1;
  issued_at_ms = pos 1;
  not_after_ms = pos 100;
  entries = entries;
  signer_key_id = "";
  signature = [];
}

check-fence_example : check revocations capability ≡ fence entries capability
check-fence_example = check-fence revocations capability

abbrev claim : ℕ → ℕ → ℕ → MeshRegistrationClaim
claim n issued proof = record {
  mesh_pub_key_ed25519 = peer_key n;
  pub_key_wg = peer_key 7;
  mesh_ip = "10.0.0.1";
  fq_name = "peer";
  role = "gateway";
  libp2p_peer_id = "p";
  endpoints = "e" ∷ [];
  bootstrap_addrs = [];
  issued_at_ms = pos issued;
  proof_of_possession = stretch 64 (proof ∷ []);
}

abbrev who : Enrolled
who = record { fabric_id = "f"; gateway_id = "g"; binding_id = "b" }

-- Two claims of one peer, one of another and one of a peer that is removed.
abbrev claims : List MeshRegistrationClaim
claims = claim 2 5 0 ∷ claim 1 5 1 ∷ claim 3 9 0 ∷ claim 1 5 4 ∷ []

abbrev assembly : RosterAssembly
assembly = record {
  fabric_id = "f";
  epoch = pos 3;
  issued_at_ms = pos 10;
  ttl_ms = pos 90;
  claims = claims;
  tombstones = peer_key 3 ∷ peer_key 3 ∷ [];
}

abbrev roster : FabricPeerRoster
roster = record {
  fabric_id = "f";
  epoch = pos 3;
  issued_at_ms = pos 10;
  not_after_ms = pos 100;
  entries = to_roster_entry (claim 1 5 4) ∷ to_roster_entry (claim 2 5 0) ∷ [];
  tombstones = peer_key 3 ∷ [];
  signer_key_id = "";
  signature = [];
}

assembly_built : build_fabric_peer_roster codec assembly ≡ ok roster
unfolding build_fabric_peer_roster built draft_roster gather keep stays dedup sorted_roster_entries
    sorted_tombstones sort insert less_bytes same_bytes validate validate_removed validate_entries
    validate_tombstones has_path_material sub64 add64 to_roster_entry
assembly_built = refl

validate_iff_example : (validate codec roster ≡ ok tt) ↔ IsWellFormed codec roster
validate_iff_example = validate_iff codec roster

peer_roster_canonical_bytes_perm_example :
    peer_roster_canonical_bytes codec (record roster {
      entries = to_roster_entry (claim 2 5 0) ∷ to_roster_entry (claim 1 5 4) ∷ [];
      tombstones = peer_key 3 ∷ [];
    })
    ≡ peer_roster_canonical_bytes codec roster
unfolding find same_bytes to_roster_entry
peer_roster_canonical_bytes_perm_example =
    peer_roster_canonical_bytes_perm codec roster
      (to_roster_entry (claim 2 5 0) ∷ to_roster_entry (claim 1 5 4) ∷ []) (peer_key 3 ∷ [])
      (Permᴰ.swap refl refl) (Permᴰ.refl (peer_key 3 ∷ [])) (refl, (refl, tt)) (refl, tt)

claim_message :
    challenge_message codec who (claim 1 5 1) ≡ challenge_message codec who (claim 1 5 4)
unfolding challenge_message
claim_message = refl

claim-IsSized : (proof : ℕ) → IsSized codec who (claim 1 5 proof)
unfolding codes canonical_ip
claim-IsSized proof = (
  (
    omega arith,
    (
      omega arith,
      (
        omega arith,
        (
          omega arith,
          (omega arith, (omega arith, (omega arith, (omega arith, (omega arith, tt))))),
        ),
      ),
    ),
  ),
  omega arith,
  omega arith,
  (omega arith, tt),
  tt,
)

challenge_message-inj_example :
    (who ≡ who) × (bound codec (claim 1 5 1) ≡ bound codec (claim 1 5 4))
unfolding codes canonical_ip
challenge_message-inj_example =
    challenge_message-inj codec codes-inj who who (claim 1 5 1) (claim 1 5 4) (claim-IsSized 1)
      (claim-IsSized 4) (omega arith) (omega arith) claim_message

own_claim : MeshRegistrationClaim
own_claim = record (claim 1 5 1) { mesh_pub_key_ed25519 = public_key }

sign_mesh_registration-as_verified_example :
    (signed : MeshRegistrationClaim) × (sign_mesh_registration codec toy private_key who own_claim
      ≡ ok signed)
    × (as_verified codec toy who signed ≡ ok signed)
    × (to_roster_entry signed ≡ to_roster_entry own_claim)
unfolding own_claim validate_claim
sign_mesh_registration-as_verified_example =
    sign_mesh_registration-as_verified codec toy private_key public_key (toy_keys (9 ∷ []))
      (λ m. refl) who own_claim refl refl

build_fabric_peer_roster-IsWellFormed_example :
    IsWellFormed codec roster × (pos 100 ≡ pos 10 +ℤ pos 90) × (pos 10 <ℤ pos 100)
build_fabric_peer_roster-IsWellFormed_example =
    build_fabric_peer_roster-IsWellFormed codec assembly roster (omega arith) (omega arith)
      assembly_built

build_fabric_peer_roster-IsFreshest_example :
    (mem_bytes (peer_key 1) assembly.tombstones ≡ true
      → find mesh_key (peer_key 1) roster.entries ≡ none)
    × (mem_bytes (peer_key 1) assembly.tombstones ≡ false
        → (best : Option MeshRegistrationClaim) × IsFreshest (peer_key 1) claims best
          × (find mesh_key (peer_key 1) roster.entries ≡ entry_of best))
build_fabric_peer_roster-IsFreshest_example =
    build_fabric_peer_roster-IsFreshest codec assembly roster (peer_key 1) assembly_built

build_fabric_peer_roster_total_example :
    (built_roster : FabricPeerRoster) × (build_fabric_peer_roster codec assembly ≡ ok built_roster)
unfolding ◌+ℤ◌ validate_claim
build_fabric_peer_roster_total_example =
    build_fabric_peer_roster_total codec assembly (omega arith) (omega arith) (omega arith)
      (omega arith) (refl, (refl, (refl, (refl, tt)))) (refl, (refl, tt))

assemble_fabric_peer_roster-verify_roster_example :
    (signed : FabricPeerRoster) × (assemble_fabric_peer_roster codec toy "signer" private_key
        assembly
      ≡ ok signed)
    × (verify_roster codec toy signed keyring (pos 50) ≡ ok tt)
    × (validate codec signed ≡ ok tt)
assemble_fabric_peer_roster-verify_roster_example =
    assemble_fabric_peer_roster-verify_roster codec toy private_key public_key (toy_keys (9 ∷ []))
      keyring "signer" known assembly roster (pos 50) assembly_built refl

abbrev two_claims : RosterAssembly
two_claims = record assembly { claims = claim 1 5 1 ∷ claim 1 5 4 ∷ [] }

build_fabric_peer_roster_perm_example :
    build_fabric_peer_roster codec (record two_claims {
      claims = claim 1 5 4 ∷ claim 1 5 1 ∷ [];
      tombstones = peer_key 3 ∷ peer_key 3 ∷ [];
    })
    ≡ build_fabric_peer_roster codec two_claims
unfolding stays less_bytes same_bytes to_roster_entry
build_fabric_peer_roster_perm_example =
    build_fabric_peer_roster_perm codec two_claims (claim 1 5 4 ∷ claim 1 5 1 ∷ [])
      (peer_key 3 ∷ peer_key 3 ∷ []) (Permᴰ.swap refl refl)
      (Permᴰ.refl (peer_key 3 ∷ peer_key 3 ∷ []))
      ((λ a b c. refl, (λ a b c. refl, tt)), ((λ a b c. refl, (λ a b c. refl, tt)), tt))
