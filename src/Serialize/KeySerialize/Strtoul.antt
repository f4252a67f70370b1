-- ===== src/Serialize/KeySerialize/Strtoul.antt =====
-- The C library's strtoul and strtoull with base 16, for a text that ends with its last character
-- or before a character that is no digit; unsigned long has 64 bits.
use oasys.Base.{
  ℕ, zero, suc, ◌+◌, ◌-◌, ◌*◌, ◌/◌, ◌%◌, ◌^◌, ◌<◌, ◌≡◌, Bool, true, false, ◌&&◌, ◌||◌, List, [],
  ◌∷◌, ◌++◌, length, ltb, leb, ◌==◌, if◌then◌else◌, arith, refl, inl, inr, Bool-cases, ◌∙◌, ap, sym,
  length-append, lt→ltb, ==_iff, subst, replicate,
}
use native.Mathlib.Numerals.{unary_clauses}
use oasys.Serialize.KeySerialize.{hex_digit, hex, blank_zeros}

unfoldable pub is_space : ℕ → Bool
is_space c = c == 32 || leb 9 c && leb c 13

unfoldable pub is_hex : ℕ → Bool
is_hex c = leb 48 c && leb c 57 || leb 97 c && leb c 102 || leb 65 c && leb c 70

unfoldable pub hex_value : ℕ → ℕ
hex_value c = if leb c 57 then c - 48 else if leb 97 c then c - 87 else c - 55

unfoldable pub digits : ℕ → List ℕ → ℕ
digits acc [] = acc
digits acc (c ∷ cs) =
    let rest = digits (acc * 16 + hex_value c) cs in if is_hex c then rest else acc

unfoldable pub skip_space : List ℕ → List ℕ
skip_space [] = []
skip_space (c ∷ cs) = let rest = skip_space cs in if is_space c then rest else c ∷ cs

-- The text without a prefix `0x`.
unfoldable pub after_prefix : List ℕ → List ℕ
after_prefix (z ∷ x ∷ d ∷ cs) =
    if z == 48 && (x == 120 || x == 88) && is_hex d then d ∷ cs else z ∷ x ∷ d ∷ cs
after_prefix s = s

abbrev pub clamp : ℕ → ℕ
clamp n = if ltb n (2 ^ 64) then n else 2 ^ 64 - 1

unfoldable pub signed : List ℕ → ℕ
signed [] = 0
signed (c ∷ cs) =
    if c == 45
    then (2 ^ 64 - clamp (digits 0 (after_prefix cs))) % 2 ^ 64
    else if c == 43
    then clamp (digits 0 (after_prefix cs))
    else clamp (digits 0 (after_prefix (c ∷ cs)))

unfoldable pub strtoul : List ℕ → ℕ
strtoul s = signed (skip_space s)

-- Every character is a digit.
abbrev pub AreDigits : List ℕ → Type 0
AreDigits [] = Unit {0}
AreDigits (c ∷ cs) = (is_hex c ≡ true) × AreDigits cs

AreDigits-append : (s t : List ℕ) → AreDigits s → AreDigits t → AreDigits (s ++ t)
AreDigits-append [] t d e = e
AreDigits-append (c ∷ s) t d e = (d.0, AreDigits-append s t d.1 e)

hex_digit-is_hex : (d : ℕ) → d < 16 → is_hex (hex_digit d) ≡ true
unfolding is_hex hex_digit
hex_digit-is_hex d h = ground arith

hex_value-hex_digit : (d : ℕ) → d < 16 → hex_value (hex_digit d) ≡ d
unfolding hex_value hex_digit
hex_value-hex_digit d h = ground arith

pub hex-AreDigits : (n i : ℕ) → AreDigits (hex n i)
unfolding hex
hex-AreDigits zero i = tt
hex-AreDigits (suc n) i =
    AreDigits-append (hex n (i / 16)) (hex_digit (i % 16) ∷ []) (hex-AreDigits n (i / 16))
      (hex_digit-is_hex (i % 16) (omega arith), tt)

pub length-hex : (n i : ℕ) → length (hex n i) ≡ n
unfolding hex
length-hex zero i = refl
length-hex (suc n) i =
    omega (arith, length-append (hex n (i / 16)) (hex_digit (i % 16) ∷ []), length-hex n (i / 16))

digits-append :
    (acc : ℕ) (s t : List ℕ) → AreDigits s → digits acc (s ++ t) ≡ digits (digits acc s) t
unfolding digits
digits-append acc [] t d = refl
digits-append acc (c ∷ s) t d = rw d.0 (digits-append (acc * 16 + hex_value c) s t d.1)

digits_one : (acc d : ℕ) → d < 16 → digits acc (hex_digit d ∷ []) ≡ acc * 16 + d
unfolding digits
digits_one acc d h = rw (hex_digit-is_hex d h, hex_value-hex_digit d h) refl

-- The digits of a number have its value.
pub digits-hex : (n i : ℕ) → i < 16 ^ n → digits 0 (hex n i) ≡ i
unfolding hex digits
digits-hex zero i h = omega arith
digits-hex (suc n) i h =
    digits-append 0 (hex n (i / 16)) (hex_digit (i % 16) ∷ []) (hex-AreDigits n (i / 16))
    ∙ (ap (λ a. digits a (hex_digit (i % 16) ∷ []))
          (digits-hex n (i / 16) (let k = simp unary_clauses at h in omega arith))
        ∙ (digits_one (i / 16) (i % 16) (omega arith) ∙ omega arith))

after_prefix_digits : (s : List ℕ) → AreDigits s → after_prefix s ≡ s
unfolding after_prefix is_hex
after_prefix_digits [] d = refl
after_prefix_digits (a ∷ []) d = refl
after_prefix_digits (a ∷ b ∷ []) d = refl
after_prefix_digits (a ∷ b ∷ c ∷ s) d = ground (arith, d.0, d.1.0)

no_sign :
    (c : ℕ) → is_hex c ≡ true → ((c == 45) ≡ false) × ((c == 43) ≡ false) × (is_space c ≡ false)
unfolding is_hex is_space
no_sign c h = ground arith

signed-digits : (s : List ℕ) → AreDigits s → digits 0 s < 2 ^ 64 → signed s ≡ digits 0 s
unfolding signed
signed-digits [] d h = unfold digits in refl
signed-digits (c ∷ s) d h =
    let (m, p, w) = no_sign c d.0 in
    rw (after_prefix_digits (c ∷ s) d, m, p, lt→ltb (digits 0 (c ∷ s)) (2 ^ 64) h) refl

skip_space_digits : (s : List ℕ) → AreDigits s → skip_space s ≡ s
unfolding skip_space
skip_space_digits [] d = refl
skip_space_digits (c ∷ s) d = let (m, p, w) = no_sign c d.0 in rw w refl

-- Digits with a value that fits are read as that value.
pub strtoul-digits : (s : List ℕ) → AreDigits s → digits 0 s < 2 ^ 64 → strtoul s ≡ digits 0 s
unfolding strtoul
strtoul-digits s d h = rw (skip_space_digits s d) (signed-digits s d h)

pub strtoul-hex : (n i : ℕ) → i < 16 ^ n → i < 2 ^ 64 → strtoul (hex n i) ≡ i
strtoul-hex n i h k =
    let e = digits-hex n i h in
    strtoul-digits (hex n i) (hex-AreDigits n i) (subst (λ m. m < 2 ^ 64) (sym e) k) ∙ e

-- Spaces in front of it, also in place of leading zeros, do not change a number.
strtoul_space : (s : List ℕ) → strtoul (32 ∷ s) ≡ strtoul s
unfolding strtoul skip_space is_space
strtoul_space s = refl

digits_zero : (c : ℕ) (s : List ℕ) → (c == 48) ≡ true → digits 0 (c ∷ s) ≡ digits 0 s
unfolding digits is_hex hex_value
digits_zero c s z = ap (λ m. digits 0 (m ∷ s)) ((==_iff c 48).0 z)

pub strtoul-blank_zeros :
    (s : List ℕ) → AreDigits s → digits 0 s < 2 ^ 64 → strtoul (blank_zeros s) ≡ digits 0 s
unfolding blank_zeros
strtoul-blank_zeros [] d h = strtoul-digits [] d h
strtoul-blank_zeros (c ∷ []) d h = strtoul-digits (c ∷ []) d h
strtoul-blank_zeros (c ∷ b ∷ s) d h = elim (Bool-cases (c == 48)) [
  | inl z ↦
      let e : digits 0 (c ∷ b ∷ s) ≡ digits 0 (b ∷ s) = digits_zero c (b ∷ s) z in
      rw z (
        strtoul_space (blank_zeros (b ∷ s))
        ∙ (strtoul-blank_zeros (b ∷ s) d.1 (subst (λ m. m < 2 ^ 64) e h) ∙ sym e))
  | inr z ↦ rw z (strtoul-digits (c ∷ b ∷ s) d h)
]

pub length-blank_zeros : (s : List ℕ) → length (blank_zeros s) ≡ length s
unfolding blank_zeros
length-blank_zeros [] = refl
length-blank_zeros (c ∷ []) = refl
length-blank_zeros (c ∷ b ∷ s) = ground (arith, length-blank_zeros (b ∷ s))

pub strtoul_spaces : (n : ℕ) (s : List ℕ) → strtoul (replicate n 32 ++ s) ≡ strtoul s
unfolding replicate
strtoul_spaces zero s = refl
strtoul_spaces (suc n) s = strtoul_space (replicate n 32 ++ s) ∙ strtoul_spaces n s
