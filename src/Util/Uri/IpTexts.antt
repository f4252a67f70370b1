-- ===== src/Util/Uri/IpTexts.antt =====
-- util/URI.cc: a host that validate_ip_literal or validate_eth_literal accepts has no '%'.
use oasys.Base.{
  ℕ, zero, suc, ◌+◌, ◌%◌, ◌≡◌, refl, Bool, true, false, not, ◌&&◌, ◌||◌, inl, inr, List, [], ◌∷◌,
  length, take, drop, arith, Bool-cases, leb, ◌==◌, take_self, if◌then◌else◌,
}
use oasys.Util.Uri.Types.{parse_ok, prefix, char_at}
use oasys.Util.Uri.Chars.{is_digit, is_hexdig, userinfo_char}
use oasys.Util.Uri.IpLiteral.{
  not_hexdig, not_digit, validate_ip_future, Scan, scan_bad, scan_dot, scan_pieces, validate_octets,
  scan_result, validate_ipv6, validate_ip_literal, validate_eth_from, validate_eth_literal,
}
use oasys.Util.Uri.Decodable.{IsDecodable, IsDecodable-cons, IsDecodable-nil, every-IsDecodable}

hexdig_plain : (c : ℕ) → is_hexdig c ≡ true → (c == b'%') ≡ false
unfolding is_hexdig is_digit
hexdig_plain c h = ground (arith, h)

digit_plain : (c : ℕ) → is_digit c ≡ true → (c == b'%') ≡ false
unfolding is_digit
digit_plain c h = ground (arith, h)

-- Behind characters that are accepted one by one.
after_run :
    (accepts : ℕ → Bool)
    → ((c : ℕ) → accepts c ≡ true → (c == b'%') ≡ false)
    → (n : ℕ) (s : List ℕ) → IsDecodable (drop (prefix (λ c. not (accepts c)) (take n s)) s)
    → IsDecodable s
unfolding prefix take drop
after_run accepts pl zero s h = h
after_run accepts pl (suc n) [] h = h
after_run accepts pl (suc n) (c ∷ s) h = elim (Bool-cases (accepts c)) [
  | inr e ↦ rw e at h
  | inl e ↦ IsDecodable-cons c s (pl c e) (after_run accepts pl n s (rw e at h))
]

after_char :
    (s : List ℕ) (c : ℕ)
    → (length s == 0) ≡ false
    → char_at s 0 ≡ c
    → (c == b'%') ≡ false
    → IsDecodable (drop 1 s)
    → IsDecodable s
unfolding char_at drop
after_char [] c h e n d = IsDecodable-nil
after_char (a ∷ s) c h e n d = IsDecodable-cons a s (rw e n) d

empty_text : (s : List ℕ) → (length s == 0) ≡ true → IsDecodable s
empty_text [] h = IsDecodable-nil
empty_text (c ∷ s) h = absurd (ground (arith, h))

validate_eth_from-IsDecodable :
    (i : ℕ) (s : List ℕ) → validate_eth_from i s ≡ parse_ok → IsDecodable s
unfolding validate_eth_from
validate_eth_from-IsDecodable i [] h = IsDecodable-nil
validate_eth_from-IsDecodable i (c ∷ s) h =
    elim (Bool-cases (if not ((i + 1) % 3 == 0) then is_hexdig c else c == b':')) [
      | inr e ↦ absurd (ground (arith, (rw e at h)))
      | inl e ↦
          IsDecodable-cons c s (ground (arith, e, hexdig_plain c))
            (validate_eth_from-IsDecodable (i + 1) s (rw e at h))
    ]

pub validate_eth_literal-IsDecodable :
    (s : List ℕ) → validate_eth_literal s ≡ parse_ok → IsDecodable s
unfolding validate_eth_literal
validate_eth_literal-IsDecodable s h = validate_eth_from-IsDecodable 0 s (ground (arith, h))

validate_octets-IsDecodable : (n : ℕ) (s : List ℕ) → validate_octets n s ≡ true → IsDecodable s
unfolding validate_octets
validate_octets-IsDecodable zero s h = empty_text s h
validate_octets-IsDecodable (suc zero) s h =
    after_run is_digit digit_plain 3 s
      (empty_text (drop (prefix not_digit (take 3 s)) s) (ground (arith, h)))
validate_octets-IsDecodable (suc (suc n)) s h =
    let t = drop (prefix not_digit (take 3 s)) s in
    after_run is_digit digit_plain 3 s (elim (Bool-cases (length t == 0)) [
      | inl e ↦ empty_text t e
      | inr e ↦
          after_char t b'.' e (ground (arith, h)) refl
            (validate_octets-IsDecodable (suc n) (drop 1 t) (ground (arith, h)))
    ])

-- What an accepted end of the loop over the pieces says of the text.
scan_dot-IsDecodable :
    (n : ℕ) (double : Bool) (s : List ℕ)
    → scan_result (scan_dot n double s) ≡ parse_ok
    → IsDecodable s
unfolding scan_result
scan_dot-IsDecodable n double s h = validate_octets-IsDecodable 4 s (ground (arith, h))

abbrev Accepted : Scan → List ℕ → Type 0
Accepted r s = scan_result r ≡ parse_ok → IsDecodable s

if-Accepted :
    (b : Bool) (r q : Scan) (s : List ℕ)
    → Accepted r s
    → Accepted q s
    → Accepted (if b then r else q) s
if-Accepted true r q s x y = x
if-Accepted false r q s x y = y

bad-Accepted : (s : List ℕ) → Accepted scan_bad s
unfolding scan_result
bad-Accepted s h = absurd (ground (arith, h))

-- One colon is skipped, or two.
after_colons :
    (is_first : Bool) (t : List ℕ)
    → (length t == 0) ≡ false
    → (char_at t 0 == b':') ≡ true
    → (is_first && not (leb 2 (length t) && char_at t 1 == b':')) ≡ false
    → IsDecodable (drop (if is_first then 2 else 1) t)
    → IsDecodable t
unfolding drop char_at
after_colons is_first [] z y x d = IsDecodable-nil
after_colons false (c ∷ t) z y x d = IsDecodable-cons c t (ground (arith, y)) d
after_colons true (c ∷ []) z y x d = absurd (ground (arith, x))
after_colons true (c ∷ e ∷ t) z y x d =
    IsDecodable-cons c (e ∷ t) (ground (arith, y)) (IsDecodable-cons e t (ground (arith, x)) d)

scan_pieces-IsDecodable :
    (fuel n : ℕ) (double prev : Bool) (s : List ℕ) → Accepted (scan_pieces fuel n double prev s) s
unfolding scan_pieces
scan_pieces-IsDecodable zero n double prev s = unfold scan_result in λ h. absurd (ground (arith, h))
scan_pieces-IsDecodable (suc fuel) n double prev s =
    let num_hexdig = prefix not_hexdig (take 4 s) in
    let t = drop num_hexdig s in
    let is_empty = num_hexdig == 0 in
    let is_first = is_empty && n == 0 in
    let run : IsDecodable t → IsDecodable s = after_run is_hexdig hexdig_plain 4 s in
    let more =
      scan_pieces-IsDecodable fuel (n + 1) (double || is_empty) is_empty
        (drop (if is_first then 2 else 1) t) in
    elim (Bool-cases (length t == 0)) [
      | inl z ↦ rw z (λ h. run (empty_text t z))
      | inr z ↦ elim (Bool-cases (char_at t 0 == b':')) [
        | inl y ↦
            rw (z, y)
              (elim (Bool-cases (is_first && not (leb 2 (length t) && char_at t 1 == b':'))) [
                | inl x ↦ rw x (bad-Accepted s)
                | inr x ↦ rw x (
                    if-Accepted (is_empty && double) scan_bad _ s (bad-Accepted s)
                      (λ h. run (after_colons is_first t z y x (more h))))
              ])
        | inr y ↦
            rw (z, y)
              (if-Accepted (char_at t 0 == b'.') _ _ s
                (if-Accepted is_empty _ _ s (bad-Accepted s) (scan_dot-IsDecodable n double s))
                (bad-Accepted s))
      ]
    ]

userinfo_plain : userinfo_char b'%' ≡ false
unfolding userinfo_char
userinfo_plain = refl

validate_ip_future-IsDecodable : (s : List ℕ) → validate_ip_future s ≡ parse_ok → IsDecodable s
unfolding validate_ip_future
validate_ip_future-IsDecodable s h =
    let t = drop (prefix not_hexdig s) s in
    after_run is_hexdig hexdig_plain (length s) s (
      rw (take_self s) (elim (Bool-cases (length t == 0)) [
        | inl e ↦ empty_text t e
        | inr e ↦
            after_char t b'.' e (ground (arith, h, e)) refl
              (every-IsDecodable userinfo_char userinfo_plain (drop 1 t) (ground (arith, h, e)))
      ]))

pub validate_ip_literal-IsDecodable :
    (s : List ℕ) → validate_ip_literal s ≡ parse_ok → IsDecodable s
unfolding validate_ip_literal validate_ipv6
validate_ip_literal-IsDecodable [] h = IsDecodable-nil
validate_ip_literal-IsDecodable (c ∷ s) h = elim (Bool-cases (c == b'v' || c == b'V')) [
  | inl e ↦ IsDecodable-cons c s (ground (arith, e)) (validate_ip_future-IsDecodable s (rw e at h))
  | inr e ↦ scan_pieces-IsDecodable (suc (length (c ∷ s))) 0 false false (c ∷ s) (rw e at h)
]
