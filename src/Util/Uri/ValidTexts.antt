-- ===== src/Util/Uri/ValidTexts.antt =====
-- util/URI.cc: what a validated URI has for texts.
use oasys.Base.{
  ℕ, ◌-◌, ◌≡◌, ◌≢◌, refl, ap, ◌∙◌, sym, subst, Bool, true, false, inl, inr, List, [], ◌∷◌, ◌++◌,
  length, take, drop, arith, Bool-cases, ◌==◌, length-append, take-append,
}
use oasys.Util.Uri.Types.{
  ParseErr, parse_ok, bad_userinfo, bad_host, bad_path, bad_query, bad_fragment, Uri, text,
}
use oasys.Util.Uri.Chars.{host_char, userinfo_char, path_char, query_char}
use oasys.Util.Uri.Percent.{no_percent, check_text}
use oasys.Util.Uri.Parse.{is_eth}
use oasys.Util.Uri.IpLiteral.{validate_ip_literal}
use oasys.Util.Uri.Validate.{
  validate_userinfo, validate_host, validate_path, validate_query, validate_fragment, or_else,
  validate,
}
use oasys.Util.Uri.Decodable.{
  IsDecodable, IsDecodable-cons, IsDecodable-snoc, IsDecodable-nil, check_text-IsDecodable,
}
use oasys.Util.Uri.IpTexts.{validate_ip_literal-IsDecodable, validate_eth_literal-IsDecodable}
use oasys.Util.Uri.Marks.{Starts, Ends, IsHostText, IsMarked}

take_init : (t : List ℕ) (c : ℕ) → take (length (t ++ (c ∷ [])) - 1) (t ++ (c ∷ [])) ≡ t
take_init t c =
    let l : length (t ++ (c ∷ [])) - 1 ≡ length t = omega (arith, length-append t (c ∷ [])) in
    rw l (take-append t (c ∷ []))

userinfo-IsDecodable : (s : List ℕ) → Ends b'@' s → validate_userinfo s ≡ parse_ok → IsDecodable s
unfolding validate_userinfo userinfo_char
userinfo-IsDecodable s (inl e) h = subst IsDecodable (sym e) IsDecodable-nil
userinfo-IsDecodable s (inr (t, e)) h =
    let h' : check_text userinfo_char bad_userinfo no_percent t ≡ parse_ok =
      ap (check_text userinfo_char bad_userinfo no_percent)
        (sym (ap (λ x. take (length x - 1) x) e ∙ take_init t b'@'))
      ∙ h in
    subst IsDecodable (sym e) (
      IsDecodable-snoc t b'@' refl (
        check_text-IsDecodable userinfo_char bad_userinfo t refl (λ x. absurd (ground (arith, x)))
          h'))

ordinary_host :
    (eth : Bool) (c : ℕ) (cs : List ℕ)
    → (c == b'[') ≡ false
    → validate_host eth (c ∷ cs) ≡ parse_ok
    → IsDecodable (c ∷ cs)
unfolding validate_host host_char
ordinary_host true c cs x h = validate_eth_literal-IsDecodable (c ∷ cs) (rw x at h)
ordinary_host false c cs x h =
    check_text-IsDecodable host_char bad_host (c ∷ cs) refl (λ y. absurd (ground (arith, y)))
      (rw x at h)

host-IsDecodable :
    (eth : Bool) (s : List ℕ) → IsHostText s → validate_host eth s ≡ parse_ok → IsDecodable s
unfolding validate_host
host-IsDecodable eth [] m h = IsDecodable-nil
host-IsDecodable eth (c ∷ cs) (inr (t, e)) h = elim (Bool-cases (c == b'[')) [
  | inr x ↦ ordinary_host eth c cs x h
  | inl x ↦
      let h' : validate_ip_literal (take (length cs - 1) cs) ≡ parse_ok = rw x at h in
      let is_inner : take (length cs - 1) cs ≡ t =
        ap (λ y. take (length y - 1) y) e ∙ take_init t b']' in
      let inner : IsDecodable t =
        validate_ip_literal-IsDecodable t (ap validate_ip_literal (sym is_inner) ∙ h') in
      let n : (c == b'%') ≡ false = ground (arith, x) in
      IsDecodable-cons c cs n (subst IsDecodable (sym e) (IsDecodable-snoc t b']' refl inner))
]
host-IsDecodable eth (c ∷ cs) (inl x) h = ordinary_host eth c cs x h

path-IsDecodable : (s : List ℕ) → validate_path s ≡ parse_ok → IsDecodable s
unfolding validate_path path_char
path-IsDecodable s h =
    check_text-IsDecodable path_char bad_path s refl (λ y. absurd (ground (arith, y))) h

query-IsDecodable :
    (bad : ParseErr) (c : ℕ) (s : List ℕ)
    → bad ≢ parse_ok
    → (c == b'%') ≡ false
    → Starts c s
    → check_text query_char bad no_percent (drop 1 s) ≡ parse_ok
    → IsDecodable s
unfolding drop query_char
query-IsDecodable bad c s nb n (inl e) h = subst IsDecodable (sym e) IsDecodable-nil
query-IsDecodable bad c s nb n (inr (t, e)) h =
    let h' : check_text query_char bad no_percent t ≡ parse_ok =
      ap (λ x. check_text query_char bad no_percent (drop 1 x)) (sym e) ∙ h in
    subst IsDecodable (sym e)
      (IsDecodable-cons c t n (check_text-IsDecodable query_char bad t refl nb h'))

bad_query-fails : bad_query ≢ parse_ok
bad_query-fails e = absurd (ground (arith, e))

bad_fragment-fails : bad_fragment ≢ parse_ok
bad_fragment-fails e = absurd (ground (arith, e))

or_else-ok : (e f : ParseErr) → or_else e f ≡ parse_ok → (e ≡ parse_ok) × (f ≡ parse_ok)
or_else-ok e f h = (ground (arith, h), ground (arith, h))

-- The texts that are decoded.
abbrev pub AreDecodable : Uri → Type 0
AreDecodable u =
    IsDecodable (text u.uri u.userinfo)
    × IsDecodable (text u.uri u.host)
    × IsDecodable (text u.uri u.path)
    × IsDecodable (text u.uri u.query)
    × IsDecodable (text u.uri u.fragment)

pub validate-AreDecodable : (u : Uri) → IsMarked u → validate u ≡ parse_ok → AreDecodable u
unfolding validate validate_query validate_fragment
validate-AreDecodable u (m1, m2, m3, m4) h =
    let (h0, r0) = or_else-ok _ _ h in
    let (h1, r1) = or_else-ok _ _ r0 in
    let (h2, r2) = or_else-ok _ _ r1 in
    let (h3, r3) = or_else-ok _ _ r2 in
    let (h4, r4) = or_else-ok _ _ r3 in
    let (h5, h6) = or_else-ok _ _ r4 in
    (
      userinfo-IsDecodable (text u.uri u.userinfo) m1 h1,
      host-IsDecodable (is_eth (text u.uri u.scheme)) (text u.uri u.host) m2 h2,
      path-IsDecodable (text u.uri u.path) h4,
      query-IsDecodable bad_query b'?' (text u.uri u.query) bad_query-fails refl m3 h5,
      query-IsDecodable bad_fragment b'#' (text u.uri u.fragment) bad_fragment-fails refl m4 h6,
    )
