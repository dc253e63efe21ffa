-- ===== src/WifiConfig/Flash/Checksum.antt =====
-- The checksum over the credentials.
use Prim.Native.Nat.{bit_and, bit_xor}
use pico2w_grbl_bridge.Base.Bits.{
  power, bit_xor-zero, bit_xor_left, bit_xor_right, bit_xor_lt, bit_xor_high,
}
use pico2w_grbl_bridge.Base.{
  ◌≤◌, inr, ◌⊎◌, inl, ℕ, zero, suc, ◌-◌, ◌/◌, ◌%◌, ◌^◌, ◌<◌, ◌≡◌, ◌≢◌, sym, ap, ◌∙◌, false, none,
  [], ◌∷◌, ◌++◌, ◌==◌, arith, Bytes,
}
use pico2w_grbl_bridge.WifiConfig.Flash.{
  CfgRecord, checked, crc_bit, crc_bits, crc_from, crc32_calc, wifi_config_load,
}

abbrev pub AreBytes : Bytes → Type 0
AreBytes [] = Unit
AreBytes (c ∷ s) = (c < 256) × AreBytes s

-- one round, by the bit that is shifted out
crc_bit_even : (x : ℕ) → x % 2 ≡ 0 → crc_bit x ≡ x / 2
unfolding crc_bit
crc_bit_even x h =
    ap (λ k. bit_xor (x / 2) (bit_and 0xEDB88320 k)) {x = (2 ^ 32 - x % 2) % 2 ^ 32} {y = 0}
      (omega (arith, h))
    ∙ bit_xor-zero (x / 2)

crc_bit_odd : (x : ℕ) → x % 2 ≡ 1 → crc_bit x ≡ bit_xor (x / 2) 0xEDB88320
unfolding crc_bit
crc_bit_odd x h =
    ap (λ k. bit_xor (x / 2) (bit_and 0xEDB88320 k)) {x = (2 ^ 32 - x % 2) % 2 ^ 32}
      {y = 0xFFFFFFFF} (omega (arith, h))

crc_bit_parity : (x : ℕ) → (x % 2 ≡ 0) ⊎ (x % 2 ≡ 1)
crc_bit_parity x = omega arith

crc_bit_lt : (x : ℕ) → x < power 32 → crc_bit x < power 32
crc_bit_lt x h = elim (crc_bit_parity x) [
  | inl even ↦ omega (arith, crc_bit_even x even)
  | inr odd ↦
      omega (arith, crc_bit_odd x odd, bit_xor_lt 32 (x / 2) 0xEDB88320 (omega arith) (omega arith))
]

-- The highest bit of the result tells whether a one was shifted out.
odd_high : (x : ℕ) → x < power 32 → x % 2 ≡ 1 → power 31 ≤ crc_bit x
odd_high x h odd = omega (
  arith,
  crc_bit_odd x odd,
  bit_xor_high 31 (x / 2) 0xEDB88320 (omega arith) (omega arith) (omega arith),
)

crc_bit_injective : (x y : ℕ) → x < power 32 → y < power 32 → crc_bit x ≡ crc_bit y → x ≡ y
crc_bit_injective x y p q h = elim (crc_bit_parity x) [
  | inl even ↦ elim (crc_bit_parity y) [
    | inl even' ↦ omega (arith, crc_bit_even x even, crc_bit_even y even')
    | inr odd' ↦ omega (arith, crc_bit_even x even, odd_high y q odd')
  ]
  | inr odd ↦ elim (crc_bit_parity y) [
    | inl even' ↦ omega (arith, crc_bit_even y even', odd_high x p odd)
    | inr odd' ↦ omega (
      arith,
      bit_xor_left (x / 2) (y / 2) 0xEDB88320 (sym (crc_bit_odd x odd) ∙ h ∙ crc_bit_odd y odd'),
    )
  ]
]

crc_bits_lt : (n x : ℕ) → x < power 32 → crc_bits n x < power 32
unfolding crc_bits
crc_bits_lt zero x h = h
crc_bits_lt (suc n) x h = crc_bits_lt n (crc_bit x) (crc_bit_lt x h)

crc_bits_injective : (n x y : ℕ) → x < power 32 → y < power 32 → crc_bits n x ≡ crc_bits n y → x ≡ y
unfolding crc_bits
crc_bits_injective zero x y p q h = h
crc_bits_injective (suc n) x y p q h =
    crc_bit_injective x y p q
      (crc_bits_injective n (crc_bit x) (crc_bit y) (crc_bit_lt x p) (crc_bit_lt y q) h)

mixed_lt : (x c : ℕ) → x < power 32 → c < 256 → bit_xor x c < power 32
mixed_lt x c p h = bit_xor_lt 32 x c p (omega (arith, h))

crc_from_lt : (x : ℕ) (s : Bytes) → x < power 32 → AreBytes s → crc_from x s < power 32
unfolding crc_from
crc_from_lt x [] p h = p
crc_from_lt x (c ∷ s) p h =
    crc_from_lt (crc_bits 8 (bit_xor x c)) s (crc_bits_lt 8 (bit_xor x c) (mixed_lt x c p h.0)) h.1

crc_from_injective :
    (x y : ℕ) (s : Bytes)
    → x < power 32
    → y < power 32
    → AreBytes s
    → crc_from x s ≡ crc_from y s
    → x ≡ y
unfolding crc_from
crc_from_injective x y [] p q h e = e
crc_from_injective x y (c ∷ s) p q h e = bit_xor_left x y c (
    crc_bits_injective 8 (bit_xor x c) (bit_xor y c) (mixed_lt x c p h.0) (mixed_lt y c q h.0) (
      crc_from_injective (crc_bits 8 (bit_xor x c)) (crc_bits 8 (bit_xor y c)) s
        (crc_bits_lt 8 (bit_xor x c) (mixed_lt x c p h.0))
        (crc_bits_lt 8 (bit_xor y c) (mixed_lt y c q h.0)) h.1 e))

-- One byte that is not the same shows in the result.
crc_from_differs :
    (x : ℕ) (front : Bytes) (c d : ℕ) (back : Bytes)
    → x < power 32
    → AreBytes (front ++ c ∷ back)
    → d < 256
    → crc_from x (front ++ c ∷ back) ≡ crc_from x (front ++ d ∷ back)
    → c ≡ d
unfolding crc_from
crc_from_differs x [] c d back p h small e = bit_xor_right c d x (
    crc_bits_injective 8 (bit_xor x c) (bit_xor x d) (mixed_lt x c p h.0) (mixed_lt x d p small) (
      crc_from_injective (crc_bits 8 (bit_xor x c)) (crc_bits 8 (bit_xor x d)) back
        (crc_bits_lt 8 (bit_xor x c) (mixed_lt x c p h.0))
        (crc_bits_lt 8 (bit_xor x d) (mixed_lt x d p small)) h.1 e))
crc_from_differs x (b ∷ front) c d back p h small e =
    crc_from_differs (crc_bits 8 (bit_xor x b)) front c d back
      (crc_bits_lt 8 (bit_xor x b) (mixed_lt x b p h.0)) h.1 small e

AreBytes-changed :
    (front : Bytes) (c d : ℕ) (back : Bytes)
    → AreBytes (front ++ c ∷ back)
    → d < 256
    → AreBytes (front ++ d ∷ back)
AreBytes-changed [] c d back h small = (small, h.1)
AreBytes-changed (b ∷ front) c d back h small = (h.0, AreBytes-changed front c d back h.1 small)

crc32_differs :
    (front : Bytes) (c d : ℕ) (back : Bytes)
    → AreBytes (front ++ c ∷ back)
    → d < 256
    → crc32_calc (front ++ c ∷ back) ≡ crc32_calc (front ++ d ∷ back)
    → c ≡ d
unfolding crc32_calc
crc32_differs front c d back h small e =
    crc_from_differs 0xFFFFFFFF front c d back (omega arith) h small (
      omega (
        arith,
        crc_from_lt 0xFFFFFFFF (front ++ c ∷ back) (omega arith) h,
        crc_from_lt 0xFFFFFFFF (front ++ d ∷ back) (omega arith)
            (AreBytes-changed front c d back h small),
      ))

-- Of a record whose checksum is right, the record with one byte of the two texts changed, whichever
-- it is and whatever it becomes, is refused. (The texts are bytes.)
pub load_damaged :
    (rec damaged : CfgRecord) (front back : Bytes) (c d : ℕ)
    → crc32_calc (checked rec) ≡ rec.crc32
    → damaged.crc32 ≡ rec.crc32
    → checked rec ≡ front ++ c ∷ back
    → checked damaged ≡ front ++ d ∷ back
    → AreBytes (front ++ c ∷ back)
    → d < 256
    → c ≢ d
    → wifi_config_load damaged ≡ none
unfolding wifi_config_load
load_damaged rec damaged front back c d right same was is h small changed =
    let wrong : crc32_calc (checked damaged) ≢ damaged.crc32 = λ e. changed (
      crc32_differs front c d back h small
        (sym (ap crc32_calc was) ∙ right ∙ sym same ∙ sym e ∙ ap crc32_calc is)) in
    let fails : (crc32_calc (checked damaged) == damaged.crc32) ≡ false = ground (arith, wrong) in
    rw fails (ground arith)
