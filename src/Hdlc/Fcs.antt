-- ===== src/Hdlc/Fcs.antt =====
-- The frame check sequence of hdlc.rs: its range, its residue, and the errors that it finds.
use softmodem_rs.Prelude.{
  ℕ, zero, suc, ◌+◌, ◌-◌, ◌*◌, ◌/◌, ◌%◌, ◌^◌, ◌<◌, bit_xor, ◌≡◌, refl, ap₂, ap, sym, ◌∙◌, true,
  List, [], ◌∷◌, ◌++◌, ◌==◌, ==_iff, leb, if◌then◌else◌, holds_below, holds_below-true, All, arith,
}
use softmodem_rs.Prelude.Bits.{
  bit_xor-lt, bit_xor_fields, bit_xor_self, bit_xor-zero, bit_xor_comm, bit_xor_cancel,
}
use softmodem_rs.Hdlc.{fcs_init, fcs_poly, fcs_good, rounds, fcs_shift, fcs_update, fcs16}

abbrev pub IsOctet : ℕ → Type 0
IsOctet b = b < 256

fcs_shift-lt : (x : ℕ) → x < 2 ^ 16 → fcs_shift x < 2 ^ 16
unfolding fcs_shift
fcs_shift-lt x h = ground (arith, bit_xor-lt 16 (x / 2) fcs_poly)

pub rounds-lt : (n x : ℕ) → x < 2 ^ 16 → rounds n x < 2 ^ 16
rounds-lt zero x h = h
rounds-lt (suc n) x h = rounds-lt n (fcs_shift x) (fcs_shift-lt x h)

fcs_update-lt :
    (fcs : ℕ) (bytes : List ℕ) → fcs < 2 ^ 16 → All IsOctet bytes → fcs_update fcs bytes < 2 ^ 16
unfolding fcs_update
fcs_update-lt fcs [] h bs = h
fcs_update-lt fcs (b ∷ bytes) h bs =
    fcs_update-lt (rounds 8 (bit_xor fcs b)) bytes
      (rounds-lt 8 _ (bit_xor-lt 16 fcs b h (omega arith))) bs.1

pub fcs_update-append :
    (fcs : ℕ) (xs ys : List ℕ) → fcs_update fcs (xs ++ ys) ≡ fcs_update (fcs_update fcs xs) ys
unfolding fcs_update
fcs_update-append fcs [] ys = refl
fcs_update-append fcs (x ∷ xs) ys = fcs_update-append (rounds 8 (bit_xor fcs x)) xs ys

-- The register after its own complement has gone in, by its low and high octet.
low_table : holds_below 256 (λ x. bit_xor x (255 - x) == 255) ≡ true
unfolding holds_below
low_table = refl

high_table :
    holds_below 256 (λ x. rounds 8 (bit_xor (rounds 8 (x * 256 + 255)) (255 - x)) == fcs_good)
    ≡ true
unfolding holds_below fcs_shift
high_table = refl

complement_low : (r : ℕ) → bit_xor r (255 - r % 256) ≡ r / 256 * 256 + 255
complement_low r =
    let whole : r ≡ r / 256 * 2 ^ 8 + r % 256 = omega arith in
    let low : bit_xor (r % 256) (255 - r % 256) ≡ 255 =
      (==_iff _ _).0 (holds_below-true 256 _ (r % 256) low_table (omega arith)) in
    let mask : 255 - r % 256 ≡ 0 * 2 ^ 8 + (255 - r % 256) = omega arith in
    ap₂ bit_xor whole mask
    ∙ bit_xor_fields 8 (r / 256) 0 (r % 256) (255 - r % 256) (omega arith) (omega arith)
    ∙ omega (arith, low, bit_xor-zero (r / 256))

fcs_residue :
    (r : ℕ)
    → r < 2 ^ 16
    → fcs_update r (((0xffff - r) % 256) ∷ ((0xffff - r) / 256) ∷ []) ≡ fcs_good
unfolding fcs_update
fcs_residue r h =
    let low : (0xffff - r) % 256 ≡ 255 - r % 256 = omega arith in
    let high : (0xffff - r) / 256 ≡ 255 - r / 256 = omega arith in
    let split : bit_xor r (255 - r % 256) ≡ r / 256 * 256 + 255 = complement_low r in
    rw (low, high, split)
      ((==_iff _ _).0 (holds_below-true 256 _ (r / 256) high_table (omega arith)))

-- The remainder over any octets and their FCS is the constant that the receiver tests for.
pub fcs_update-fcs16 :
    (bytes : List ℕ) → All IsOctet bytes → fcs_update fcs_init (bytes ++ fcs16 bytes) ≡ fcs_good
unfolding fcs16
fcs_update-fcs16 bytes h =
    fcs_update-append fcs_init bytes _
    ∙ fcs_residue (fcs_update fcs_init bytes) (fcs_update-lt fcs_init bytes (omega arith) h)

-- The register before a shift: the top bit tells whether the polynomial went in.
unshift : ℕ → ℕ
unshift y = if leb 32768 y then bit_xor y fcs_poly * 2 + 1 else y * 2

unshift-fcs_shift : (x : ℕ) → x < 2 ^ 16 → unshift (fcs_shift x) ≡ x
unfolding unshift fcs_shift
unshift-fcs_shift x h =
    ground (arith, bit_xor_fields 15 0 1 (x / 2) 0x0408, bit_xor_self (x / 2) fcs_poly)

fcs_shift_injective : (x y : ℕ) → x < 2 ^ 16 → y < 2 ^ 16 → fcs_shift x ≡ fcs_shift y → x ≡ y
fcs_shift_injective x y h k e = sym (unshift-fcs_shift x h) ∙ ap unshift e ∙ unshift-fcs_shift y k

rounds_injective : (n x y : ℕ) → x < 2 ^ 16 → y < 2 ^ 16 → rounds n x ≡ rounds n y → x ≡ y
rounds_injective zero x y h k e = e
rounds_injective (suc n) x y h k e =
    fcs_shift_injective x y h k
      (rounds_injective n (fcs_shift x) (fcs_shift y) (fcs_shift-lt x h) (fcs_shift-lt y k) e)

fcs_update_injective :
    (bytes : List ℕ) (x y : ℕ)
    → All IsOctet bytes
    → x < 2 ^ 16
    → y < 2 ^ 16
    → fcs_update x bytes ≡ fcs_update y bytes
    → x ≡ y
unfolding fcs_update
fcs_update_injective [] x y bs h k e = e
fcs_update_injective (b ∷ bytes) x y bs h k e =
    let b16 : b < 2 ^ 16 = omega arith in
    let hx : bit_xor x b < 2 ^ 16 = bit_xor-lt 16 x b h b16 in
    let hy : bit_xor y b < 2 ^ 16 = bit_xor-lt 16 y b k b16 in
    let same : bit_xor x b ≡ bit_xor y b =
      rounds_injective 8 _ _ hx hy
        (fcs_update_injective bytes _ _ bs.1 (rounds-lt 8 _ hx) (rounds-lt 8 _ hy) e) in
    bit_xor_cancel b x y (bit_xor_comm b x ∙ same ∙ bit_xor_comm y b)

-- Of two runs of octets that differ in one octet the registers differ at the end.
pub fcs_update_one_octet :
    (pre post : List ℕ) (b b' : ℕ)
    → All IsOctet pre
    → All IsOctet post
    → b < 256
    → b' < 256
    → fcs_update fcs_init (pre ++ b ∷ post) ≡ fcs_update fcs_init (pre ++ b' ∷ post)
    → b ≡ b'
fcs_update_one_octet pre post b b' hpre hpost hb hb' e =
    let r = fcs_update fcs_init pre in
    let r16 : r < 2 ^ 16 = fcs_update-lt fcs_init pre (omega arith) hpre in
    let hx : bit_xor r b < 2 ^ 16 = bit_xor-lt 16 r b r16 (omega arith) in
    let hy : bit_xor r b' < 2 ^ 16 = bit_xor-lt 16 r b' r16 (omega arith) in
    let e' : fcs_update r (b ∷ post) ≡ fcs_update r (b' ∷ post) =
      sym (fcs_update-append fcs_init pre _) ∙ e ∙ fcs_update-append fcs_init pre _ in
    bit_xor_cancel r b b' (
      rounds_injective 8 _ _ hx hy (
        fcs_update_injective post _ _ hpost (rounds-lt 8 _ hx) (rounds-lt 8 _ hy)
          (unfold fcs_update in e')))
