-- ===== src/Util/Uri/Marks.antt =====
-- util/URI.cc: the characters that set off the components that parse finds.
use oasys.Base.{
  ℕ, zero, suc, ◌+◌, ◌-◌, ◌<◌, ◌≤◌, ◌≡◌, refl, ap, ◌∙◌, sym, subst, Bool, false, not, ◌&&◌, ◌⊎◌,
  inl, inr, List, [], ◌∷◌, ◌++◌, length, take, drop, arith, Bool-cases, leb, leb→le, ◌==◌, ==_iff,
  if◌then◌else◌, length-take, drop-drop, take-nil,
}
use oasys.Util.Uri.Types.{parse_ok, at_offset, Uri, text, prefix, char_at, is_char}
use oasys.Util.Uri.Search.{prefix-le, prefix_stop, char_at-drop}
use oasys.Util.Uri.Parse.{
  authority_end, path_end, query_end, fragment_end, parse_generic_ssp, parse_authority, parse_host,
  host_end, is_eth,
}

abbrev pub Starts : ℕ → List ℕ → Type 0
Starts c s = (s ≡ []) ⊎ ((t : List ℕ) × (s ≡ c ∷ t))

abbrev pub Ends : ℕ → List ℕ → Type 0
Ends c s = (s ≡ []) ⊎ ((t : List ℕ) × (s ≡ t ++ (c ∷ [])))

-- A host in brackets, or one that does not start with a bracket.
abbrev pub IsHostText : List ℕ → Type 0
IsHostText [] = Unit {0}
IsHostText (c ∷ cs) = ((c == b'[') ≡ false) ⊎ ((t : List ℕ) × (cs ≡ t ++ (b']' ∷ [])))

take_first : (n : ℕ) (s : List ℕ) → Starts (char_at s 0) (take n s)
unfolding take char_at
take_first zero s = inl refl
take_first (suc n) [] = inl refl
take_first (suc n) (c ∷ s) = inr (take n s, refl)

text_first : (s : List ℕ) (o n c : ℕ) → char_at s o ≡ c → Starts c (text s (at_offset o n))
text_first s o n c e =
    subst (λ x. Starts x (text s (at_offset o n)))
      (char_at-drop s o 0 ∙ (ap (char_at s) (omega arith) ∙ e)) (take_first n (drop o s))

text_none : (s : List ℕ) (o n c : ℕ) → n ≡ 0 → Starts c (text s (at_offset o n))
unfolding take
text_none s o n c e = inl (rw e refl)

take_last : (n : ℕ) (s : List ℕ) → n < length s → take (suc n) s ≡ take n s ++ (char_at s n ∷ [])
unfolding take char_at
take_last n [] h = absurd (omega arith)
take_last zero (c ∷ s) h = refl
take_last (suc n) (c ∷ s) h = ap (◌∷◌ c) (take_last n s (omega arith))

query_marked : (s : List ℕ) (p : ℕ) → Starts b'?' (text s (at_offset p (query_end s p - p)))
unfolding query_end
query_marked s p = elim (Bool-cases (not (p == length s) && char_at s p == b'?')) [
  | inr e ↦ rw e (text_none s p (p - p) b'?' (omega arith))
  | inl e ↦ text_first s p _ b'?' (ground (arith, e))
]

fragment_marked : (s : List ℕ) (p : ℕ) → Starts b'#' (text s (at_offset p (fragment_end s p - p)))
unfolding fragment_end
fragment_marked s p = elim (Bool-cases (not (p == length s) && char_at s p == b'#')) [
  | inr e ↦ rw e (text_none s p (p - p) b'#' (omega arith))
  | inl e ↦ text_first s p _ b'#' (ground (arith, e))
]

pub generic-Starts :
    (u : Uri)
    → Starts b'?' (text (parse_generic_ssp u).uri (parse_generic_ssp u).query)
      × Starts b'#' (text (parse_generic_ssp u).uri (parse_generic_ssp u).fragment)
unfolding parse_generic_ssp
generic-Starts u =
    let a = authority_end u.uri u.ssp in
    let p = path_end u.uri a in
    let q = query_end u.uri p in
    elim (Bool-cases (u.ssp.length == 0)) [
      | inl z ↦
          let n : u.ssp.length ≡ 0 = (==_iff u.ssp.length 0).0 z in
          rw z (
            text_none u.uri u.ssp.offset u.ssp.length b'?' n,
            text_none u.uri u.ssp.offset u.ssp.length b'#' n,
          )
      | inr z ↦ rw z (query_marked u.uri p, fragment_marked u.uri q)
    ]

-- A part of a part of a text.
drop-take_two : (n : ℕ) (s : List ℕ) → drop 2 (take (suc (suc n)) s) ≡ take n (drop 2 s)
unfolding drop take
drop-take_two n [] = sym (take-nil n)
drop-take_two n (c ∷ []) = sym (take-nil n)
drop-take_two n (c ∷ d ∷ s) = refl

drop-take : (k n : ℕ) (s : List ℕ) → drop k (take n s) ≡ take (n - k) (drop k s)
unfolding drop take
drop-take zero n s = ap (λ x. take x s) (omega arith)
drop-take (suc k) zero s = let z : zero - suc k ≡ 0 = omega arith in rw z refl
drop-take (suc k) (suc n) [] = sym (take-nil (suc n - suc k))
drop-take (suc k) (suc n) (c ∷ s) = drop-take k n s ∙ ap (λ x. take x (drop k s)) (omega arith)

take-take : (k n : ℕ) (s : List ℕ) → k ≤ n → take k (take n s) ≡ take k s
unfolding take
take-take zero n s h = refl
take-take (suc k) zero s h = absurd (omega arith)
take-take (suc k) (suc n) [] h = refl
take-take (suc k) (suc n) (c ∷ s) h = ap (◌∷◌ c) (take-take k n s (omega arith))

prefix-Ends :
    (c : ℕ) (s : List ℕ)
    → prefix (is_char c) s < length s
    → take (suc (prefix (is_char c) s)) s ≡ take (prefix (is_char c) s) s ++ (c ∷ [])
prefix-Ends c s h =
    let n = prefix (is_char c) s in
    take_last n s h
    ∙ ap (λ x. take n s ++ (x ∷ [])) ((==_iff (char_at s n) c).0 (prefix_stop (is_char c) s h))

no_bracket : (n c : ℕ) (cs : List ℕ) → (c == b'[') ≡ false → IsHostText (take n (c ∷ cs))
unfolding take
no_bracket zero c cs e = tt
no_bracket (suc n) c cs e = inl e

host_end-IsHostText :
    (eth : Bool) (s : List ℕ) → host_end eth s ≤ length s → IsHostText (take (host_end eth s) s)
unfolding host_end take prefix
host_end-IsHostText eth [] h = tt
host_end-IsHostText eth (c ∷ cs) h = elim (Bool-cases (c == b'[')) [
  | inr e ↦ no_bracket (host_end eth (c ∷ cs)) c cs e
  | inl e ↦
      let n : (c == b']') ≡ false = ground (arith, e) in
      let m : suc (suc (prefix (is_char b']') cs)) ≤ length (c ∷ cs) = rw (e, n) at h in
      rw (e, n) (inr (take (prefix (is_char b']') cs) cs, prefix-Ends b']' cs (omega arith)))
]

-- The components of a parsed URI, with the characters that set them off.
abbrev pub IsMarked : Uri → Type 0
IsMarked u =
    Ends b'@' (text u.uri u.userinfo)
    × IsHostText (text u.uri u.host)
    × Starts b'?' (text u.uri u.query)
    × Starts b'#' (text u.uri u.fragment)

parse_host-IsMarked :
    (o m : ℕ) (rest : List ℕ) (u : Uri)
    → rest ≡ take m (drop o u.uri)
    → Ends b'@' (text u.uri u.userinfo)
    → Starts b'?' (text u.uri u.query)
    → Starts b'#' (text u.uri u.fragment)
    → (parse_host o rest u).0 ≡ parse_ok
    → IsMarked (parse_host o rest u).1
unfolding parse_host
parse_host-IsMarked o m rest u part a q f ok =
    let n = host_end (is_eth (text u.uri u.scheme)) rest in
    let tail = drop n rest in
    elim (Bool-cases (leb n (length rest))) [
      | inr e ↦ absurd (ground (arith, e, ok))
      | inl e ↦
          let le : n ≤ length rest = leb→le n (length rest) e in
          let lm : length rest ≤ m = grind (arith, ap length part, length-take m (drop o u.uri)) in
          let same : take n rest ≡ take n (drop o u.uri) =
            ap (take n) part ∙ take-take n m (drop o u.uri) (omega (arith, le, lm)) in
          let host : IsHostText (text u.uri (at_offset o n)) =
            subst IsHostText same (host_end-IsHostText (is_eth (text u.uri u.scheme)) rest le) in
          elim (Bool-cases (length tail == 0)) [
            | inl z ↦ rw (e, z) (a, host, q, f)
            | inr z ↦ elim (Bool-cases (char_at tail 0 == b':')) [
              | inr y ↦ absurd (ground (arith, e, z, y, ok))
              | inl y ↦ rw (e, z, y) (a, host, q, f)
            ]
          ]
    ]

-- The userinfo of an authority whose rest is given: it ends in the '@'.
userinfo-Ends :
    (rest : List ℕ) (n k : ℕ)
    → n ≡ prefix (is_char b'@') rest
    → k ≡ (if n == length rest then 0 else n + 1)
    → Ends b'@' (take k rest)
unfolding take
userinfo-Ends rest n k e d = elim (Bool-cases (n == length rest)) [
  | inl z ↦ inl (rw (d, z) refl)
  | inr z ↦
      let lt : prefix (is_char b'@') rest < length rest =
        ground (arith, z, e, prefix-le (is_char b'@') rest) in
      let s : k ≡ suc (prefix (is_char b'@') rest) = d ∙ rw z (omega (arith, e)) in
      inr (take (prefix (is_char b'@') rest) rest, rw s (prefix-Ends b'@' rest lt))
]

pub parse_authority-IsMarked :
    (u : Uri)
    → (u.authority.length ≡ 0) ⊎ (2 ≤ u.authority.length)
    → Starts b'?' (text u.uri u.query)
    → Starts b'#' (text u.uri u.fragment)
    → (parse_authority u).0 ≡ parse_ok
    → IsMarked (parse_authority u).1
unfolding parse_authority take
parse_authority-IsMarked u two q f ok =
    let o = u.authority.offset + 2 in
    let t = text u.uri u.authority in
    let rest = drop 2 t in
    let n = prefix (is_char b'@') rest in
    let k = if n == length rest then 0 else n + 1 in
    elim (Bool-cases (u.authority.length == 0)) [
      | inl z ↦
          let none_left : u.authority.length ≡ 0 = (==_iff u.authority.length 0).0 z in
          rw (z, none_left) (inl refl, tt, q, f)
      | inr z ↦
          let m = u.authority.length - 2 in
          let l : u.authority.length ≡ suc (suc m) = ground (arith, z, two) in
          let is_rest : rest ≡ take m (drop o u.uri) =
            ap (λ x. drop 2 (take x (drop u.authority.offset u.uri))) l
            ∙ (drop-take_two m (drop u.authority.offset u.uri)
                ∙ ap (take m) (drop-drop u.authority.offset 2 u.uri)) in
          let kr : k ≤ length rest = ground (arith, prefix-le (is_char b'@') rest) in
          let km : length rest ≤ m =
            grind (arith, ap length is_rest, length-take m (drop o u.uri)) in
          let ends : Ends b'@' (text u.uri (at_offset o k)) =
            subst (Ends b'@')
              (ap (take k) is_rest ∙ take-take k m (drop o u.uri) (omega (arith, kr, km)))
              (userinfo-Ends rest n k refl refl) in
          let part : drop k rest ≡ take (m - k) (drop (o + k) u.uri) =
            ap (drop k) is_rest
            ∙ (drop-take k m (drop o u.uri) ∙ ap (take (m - k)) (drop-drop o k u.uri)) in
          rw z (
            parse_host-IsMarked (o + k) (m - k) (drop k rest)
              (record u { userinfo = at_offset o k }) part ends q f (rw z at ok))
    ]
