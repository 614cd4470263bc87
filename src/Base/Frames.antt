-- ===== src/Base/Frames.antt =====
-- Messages of framed fields: a length as big-endian bytes, then the bytes. The width is 8 bytes in
-- membershipcap and 4 in serviceaccesscap.
use Prim.Native.Nat.{ℕ, zero, suc, ◌*◌, ◌/◌, ◌%◌, ◌<◌}
use mathlib.Core.Path.{◌≡◌, refl, ap, sym, ◌∙◌}
use mathlib.Core.List.{List, [], ◌∷◌, ◌++◌, append_assoc}
use native.Mathlib.Omega.{arith}
use xx_federation_contracts.Base.Lists.{length, length-append}
use xx_federation_contracts.Base.Bytes.{Bytes}

-- 256 to the power of a width.
abbrev pub capacity : ℕ → ℕ
capacity zero = 1
capacity (suc w) = 256 * capacity w

-- `binary.BigEndian.PutUint…`: the lowest `w` bytes of a number, the highest first.
unfoldable pub big_endian : ℕ → ℕ → Bytes
big_endian zero n = []
big_endian (suc w) n = big_endian w (n / 256) ++ (n % 256 ∷ [])

-- `writeLenField` and `writeLenPrefixed`
unfoldable pub frame : ℕ → Bytes → Bytes
frame w bytes = big_endian w (length bytes) ++ bytes

abbrev first {ℓ} : {A : Type ℓ} → A → List A → A
first x [] = x
first x (y ∷ ys) = y

abbrev rest {ℓ} : {A : Type ℓ} → List A → List A → List A
rest us [] = us
rest us (y ∷ ys) = ys

-- Two lists with parts of one length in front.
pub split_append {ℓ} :
    {A : Type ℓ} (xs ys us vs : List A)
    → length xs ≡ length ys
    → xs ++ us ≡ ys ++ vs
    → (xs ≡ ys) × (us ≡ vs)
split_append [] [] us vs h e = (refl, e)
split_append [] (y ∷ ys) us vs h e = ground arith
split_append (x ∷ xs) [] us vs h e = ground arith
split_append (x ∷ xs) (y ∷ ys) us vs h e =
    let (p, q) = split_append xs ys us vs (omega (arith, h)) (ap (rest us) e) in (cc p, q)

pub length-big_endian : (w n : ℕ) → length (big_endian w n) ≡ w
unfolding big_endian
length-big_endian zero n = refl
length-big_endian (suc w) n =
    omega
      (arith, length-append (big_endian w (n / 256)) (n % 256 ∷ []), length-big_endian w (n / 256))

-- Numbers that fit in the width have different bytes.
pub big_endian-inj :
    (w m n : ℕ) → m < capacity w → n < capacity w → big_endian w m ≡ big_endian w n → m ≡ n
unfolding big_endian
big_endian-inj zero m n h k e = omega arith
big_endian-inj (suc w) m n h k e =
    let (p, q) =
      split_append (big_endian w (m / 256)) (big_endian w (n / 256)) (m % 256 ∷ []) (n % 256 ∷ [])
        (length-big_endian w (m / 256) ∙ sym (length-big_endian w (n / 256))) e in
    omega
      (arith, big_endian-inj w (m / 256) (n / 256) (omega arith) (omega arith) p, ap (first 0) q)

-- A framed field is read off the front of a message.
pub frame-inj :
    (w : ℕ) (a b us vs : Bytes)
    → length a < capacity w
    → length b < capacity w
    → frame w a ++ us ≡ frame w b ++ vs
    → (a ≡ b) × (us ≡ vs)
unfolding frame
frame-inj w a b us vs h k e =
    let (p, q) =
      split_append (big_endian w (length a)) (big_endian w (length b)) (a ++ us) (b ++ vs)
        (length-big_endian w (length a) ∙ sym (length-big_endian w (length b)))
        (sym (append_assoc _ a us) ∙ e ∙ append_assoc _ b vs) in
    split_append a b us vs (big_endian-inj w (length a) (length b) h k p) q

big_endian_test : big_endian 4 258 ≡ 0 ∷ 0 ∷ 1 ∷ 2 ∷ []
unfolding big_endian
big_endian_test = refl

-- `writeStringSlice`: the number of elements, then each one framed.
unfoldable pub frame_each : ℕ → List Bytes → Bytes
frame_each w [] = []
frame_each w (x ∷ xs) = frame w x ++ frame_each w xs

unfoldable pub frame_list : ℕ → List Bytes → Bytes
frame_list w xs = big_endian w (length xs) ++ frame_each w xs

-- Fields that fit the width.
abbrev pub Fit : ℕ → List Bytes → Type 0
Fit w [] = Unit
Fit w (x ∷ xs) = (length x < capacity w) × Fit w xs

pub frame_each-inj :
    (w : ℕ) (as' bs : List Bytes) (us vs : Bytes)
    → length as' ≡ length bs
    → Fit w as'
    → Fit w bs
    → frame_each w as' ++ us ≡ frame_each w bs ++ vs
    → (as' ≡ bs) × (us ≡ vs)
unfolding frame_each
frame_each-inj w [] [] us vs h p q e = (refl, e)
frame_each-inj w [] (b ∷ bs) us vs h p q e = ground arith
frame_each-inj w (a ∷ as') [] us vs h p q e = ground arith
frame_each-inj w (a ∷ as') (b ∷ bs) us vs h p q e =
    let (heads, tails) =
      frame-inj w a b (frame_each w as' ++ us) (frame_each w bs ++ vs) p.0 q.0
        (sym (append_assoc (frame w a) _ us) ∙ e ∙ append_assoc (frame w b) _ vs) in
    let (more, ends) = frame_each-inj w as' bs us vs (omega (arith, h)) p.1 q.1 tails in
    (cc (heads, more), ends)

-- A framed list is read off the front of a message.
pub frame_list-inj :
    (w : ℕ) (as' bs : List Bytes) (us vs : Bytes)
    → length as' < capacity w
    → length bs < capacity w
    → Fit w as'
    → Fit w bs
    → frame_list w as' ++ us ≡ frame_list w bs ++ vs
    → (as' ≡ bs) × (us ≡ vs)
unfolding frame_list
frame_list-inj w as' bs us vs h k p q e =
    let (counts, rests) =
      split_append (big_endian w (length as')) (big_endian w (length bs)) (frame_each w as' ++ us)
        (frame_each w bs ++ vs)
        (length-big_endian w (length as') ∙ sym (length-big_endian w (length bs)))
        (sym (append_assoc _ (frame_each w as') us) ∙ e ∙ append_assoc _ (frame_each w bs) vs) in
    frame_each-inj w as' bs us vs (big_endian-inj w (length as') (length bs) h k counts) p q rests
