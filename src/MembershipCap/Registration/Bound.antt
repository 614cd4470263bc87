-- ===== src/MembershipCap/Registration/Bound.antt =====
-- membershipcap/meshregistration.go: what the message of a challenge binds.
use xx_federation_contracts.Base.{
  ℕ, zero, suc, ◌<◌, ◌≡◌, refl, ap, sym, ◌∙◌, String, List, [], ◌∷◌, ◌++◌, map, arith, length,
}
use mathlib.Core.List.{append_assoc}
use xx_federation_contracts.Base.Int.{ℤ, pos, negsuc, to_bits, IsInt64}
use xx_federation_contracts.Base.Bytes.{Bytes}
use xx_federation_contracts.Base.Frames.{
  capacity, big_endian, big_endian-inj, frame, frame_each, frame_each-inj, frame_list,
  frame_list-inj, Fit, split_append,
}
use xx_federation_contracts.MembershipCap.Types.{MeshRegistrationClaim, Codec}
use xx_federation_contracts.MembershipCap.Registration.{
  Enrolled, canonical_ip, challenge_message, mesh_registration_domain, width,
}

to_bits-inj : (a b : ℤ) → IsInt64 a → IsInt64 b → to_bits a ≡ to_bits b → a ≡ b
to_bits-inj (pos a) (pos b) h k e = ap pos (omega arith)
to_bits-inj (pos a) (negsuc b) h k e = ground arith
to_bits-inj (negsuc a) (pos b) h k e = ground arith
to_bits-inj (negsuc a) (negsuc b) h k e = ap negsuc (omega arith)

to_bits-bound : (a : ℤ) → to_bits a < capacity width
to_bits-bound (pos a) = omega arith
to_bits-bound (negsuc a) = omega arith

map-inj :
    {A B : Type 0} (f : A → B)
    → ((a b : A) → f a ≡ f b → a ≡ b)
    → (xs ys : List A) → map f xs ≡ map f ys
    → xs ≡ ys
map-inj f inj [] [] e = refl
map-inj f inj [] (y ∷ ys) e = ground arith
map-inj f inj (x ∷ xs) [] e = ground arith
map-inj f inj (x ∷ xs) (y ∷ ys) e = cc (inj x y (ground arith), map-inj f inj xs ys (ground arith))

abbrev field : ℕ → List Bytes → Bytes
field n [] = []
field zero (x ∷ xs) = x
field (suc n) (x ∷ xs) = field n xs

module _ (codec : Codec) where
  open codec use {utf8}

  -- The bound content: the identity, and all of the claim but its proof, the address in its
  -- canonical spelling.
  abbrev pub bound_content : Enrolled → MeshRegistrationClaim → List Bytes
  bound_content who c =
      utf8 who.fabric_id
      ∷ utf8 who.gateway_id
      ∷ utf8 who.binding_id
      ∷ c.mesh_pub_key_ed25519
      ∷ c.pub_key_wg
      ∷ utf8 (canonical_ip codec c.mesh_ip)
      ∷ utf8 c.fq_name
      ∷ utf8 c.role
      ∷ utf8 c.libp2p_peer_id
      ∷ []

  -- Every text and list of the content is shorter than the 2^64 that its length field holds.
  abbrev pub IsSized : Enrolled → MeshRegistrationClaim → Type 0
  IsSized who c =
      Fit width (bound_content who c)
      × (length (map utf8 c.endpoints) < capacity width)
      × (length (map utf8 c.bootstrap_addrs) < capacity width)
      × Fit width (map utf8 c.endpoints)
      × Fit width (map utf8 c.bootstrap_addrs)

  abbrev lists_and_time : MeshRegistrationClaim → Bytes
  lists_and_time c =
      frame_list width (map utf8 c.endpoints)
      ++ (frame_list width (map utf8 c.bootstrap_addrs)
          ++ big_endian width (to_bits c.issued_at_ms))

  challenge_message_framed :
      (who : Enrolled) (c : MeshRegistrationClaim)
      → challenge_message codec who c
        ≡ frame width (utf8 mesh_registration_domain)
          ++ (frame_each width (bound_content who c) ++ lists_and_time c)
  unfolding challenge_message frame_each
  challenge_message_framed who c = simp (append_assoc)

  -- A claim without its proof and with the address in its canonical spelling.
  abbrev pub bound : MeshRegistrationClaim → MeshRegistrationClaim
  bound c = record c { mesh_ip = canonical_ip codec c.mesh_ip; proof_of_possession = [] }

  module _ (utf8-inj : (s t : String) → utf8 s ≡ utf8 t → s ≡ t) where
    -- Two challenges hash one message only if they are for the same enrolled identity, and for
    -- claims that are the same but for their proofs and the spelling of their addresses: no two
    -- fields can be shifted into one another. The fields are sized as Go's are.
    pub challenge_message-inj :
        (who who2 : Enrolled) (c d : MeshRegistrationClaim)
        → IsSized who c
        → IsSized who2 d
        → IsInt64 c.issued_at_ms
        → IsInt64 d.issued_at_ms
        → challenge_message codec who c ≡ challenge_message codec who2 d
        → (who ≡ who2) × (bound c ≡ bound d)
    challenge_message-inj who who2 c d (fc, ec, bc, fec, fbc) (fd, ed, bd, fed, fbd) ic id e =
        let domain = frame width (utf8 mesh_registration_domain) in
        let same =
          split_append domain domain _ _ refl
            (sym (challenge_message_framed who c) ∙ e ∙ challenge_message_framed who2 d) in
        let (content, rest) =
          frame_each-inj width (bound_content who c) (bound_content who2 d) (lists_and_time c)
            (lists_and_time d) refl fc fd same.1 in
        let (endpoints, rest2) =
          frame_list-inj width (map utf8 c.endpoints) (map utf8 d.endpoints) _ _ ec ed fec fed
            rest in
        let (addrs, time) =
          frame_list-inj width (map utf8 c.bootstrap_addrs) (map utf8 d.bootstrap_addrs) _ _ bc bd
            fbc fbd rest2 in
        let issued = to_bits-inj c.issued_at_ms d.issued_at_ms ic id (
          big_endian-inj width _ _ (to_bits-bound c.issued_at_ms) (to_bits-bound d.issued_at_ms)
            time) in
        let es = map-inj utf8 utf8-inj c.endpoints d.endpoints endpoints in
        let bs = map-inj utf8 utf8-inj c.bootstrap_addrs d.bootstrap_addrs addrs in
        let at : (n : ℕ) → field n (bound_content who c) ≡ field n (bound_content who2 d) =
          λ n. ap (field n) content in
        (
          cc (utf8-inj _ _ (at 0), utf8-inj _ _ (at 1), utf8-inj _ _ (at 2)),
          cc (
            at 3,
            utf8-inj _ _ (at 5),
            utf8-inj _ _ (at 6),
            utf8-inj _ _ (at 7),
            utf8-inj _ _ (at 8),
            es,
            bs,
            issued,
          ),
        )
