-- ===== src/Util/Uri/ParseLayout.antt =====
-- util/URI.cc: the components that parse finds are laid out in the text.
use oasys.Base.{
  ℕ, ◌+◌, ◌-◌, ◌≤◌, ◌≡◌, refl, ◌∙◌, ◌⊎◌, inl, inr, List, length, drop, arith, Bool-cases, ◌==◌,
  ==_iff, leb, if◌then◌else◌, length-drop, length-take,
}
use oasys.Util.Uri.Types.{parse_ok, Component, at_offset, Uri, text, prefix, is_char, char_at}
use oasys.Util.Uri.Search.{prefix-le}
use oasys.Util.Uri.Parse.{
  authority_end, parse_generic_ssp, parse_authority, parse_host, host_end, is_eth, atoi,
}
use oasys.Util.Uri.Chain.{IsChain, parse_generic_ssp-IsChain}
use oasys.Util.Uri.Layout.{IsLaidOut, laid_out}

-- What parse_host needs to know of the components that stand already.
abbrev IsReady : ℕ → ℕ → Uri → Type 0
IsReady o n u =
    (u.scheme.offset ≡ 0)
    × (u.ssp.offset ≡ u.scheme.length + 1)
    × IsChain u
    × (u.authority.offset ≤ u.userinfo.offset)
    × (o ≡ u.userinfo.offset + u.userinfo.length)
    × (o + n ≡ u.authority.offset + u.authority.length)

parse_host-IsLaidOut :
    (o : ℕ) (rest : List ℕ) (u : Uri)
    → IsReady o (length rest) u
    → (parse_host o rest u).0 ≡ parse_ok
    → IsLaidOut (parse_host o rest u).1
unfolding parse_host
parse_host-IsLaidOut o rest u (h0, h1, h2, h3, h4, h5) ok =
    let n = host_end (is_eth (text u.uri u.scheme)) rest in
    let tail = drop n rest in
    let lt = length-drop n rest in
    elim (Bool-cases (leb n (length rest))) [
      | inr e ↦ absurd (ground (arith, e, ok))
      | inl e ↦ elim (Bool-cases (length tail == 0)) [
        | inl z ↦
            rw (e, z)
              (laid_out (record u { host = at_offset o n; port = at_offset (o + n) 0 })
                (ground (arith, lt, e, z)))
        | inr z ↦ elim (Bool-cases (char_at tail 0 == b':')) [
          | inr y ↦ absurd (ground (arith, e, z, y, ok))
          | inl y ↦
              rw (e, z, y)
                (laid_out
                  (record u {
                    host = at_offset o n;
                    port = at_offset (o + n + 1) (length tail - 1);
                    port_num = if length tail - 1 == 0 then u.port_num else atoi (drop 1 tail);
                  })
                  (ground (arith, lt, e, z)))
        ]
      ]
    ]

parse_authority-IsLaidOut :
    (u : Uri)
    → u.scheme.offset ≡ 0
    → u.ssp.offset ≡ u.scheme.length + 1
    → IsChain u
    → (u.authority.length ≡ 0) ⊎ (2 ≤ u.authority.length)
    → (parse_authority u).0 ≡ parse_ok
    → IsLaidOut (parse_authority u).1
unfolding parse_authority
parse_authority-IsLaidOut u h0 h1 h2 two ok =
    let o = u.authority.offset + 2 in
    let t = text u.uri u.authority in
    let rest = drop 2 t in
    let n = prefix (is_char b'@') rest in
    let k = if n == length rest then 0 else n + 1 in
    let lt : length t ≡ u.authority.length = grind (
      arith,
      length-take u.authority.length (drop u.authority.offset u.uri),
      length-drop u.authority.offset u.uri,
    ) in
    let lr = length-drop 2 t in
    let lk = length-drop k rest in
    let le = prefix-le (is_char b'@') rest in
    let kr : k ≤ length rest = ground arith in
    let chain_copy : IsChain (record u { userinfo = at_offset o k }) = record {
      ssp_last = h2.ssp_last;
      authority_first = h2.authority_first;
      path_next = h2.path_next;
      query_next = h2.query_next;
      fragment_next = h2.fragment_next;
      fragment_last = h2.fragment_last;
    } in
    elim (Bool-cases (u.authority.length == 0)) [
      | inl z ↦ rw z (
          laid_out (record u { userinfo = u.authority; host = u.authority; port = u.authority })
            (ground (arith, z)))
      | inr z ↦ rw z (
          parse_host-IsLaidOut (o + k) (drop k rest) (record u { userinfo = at_offset o k })
            (h0, h1, chain_copy, ground (arith, z), refl, ground (arith, z)) (rw z at ok))
    ]

-- An authority is empty or has its two slashes.
authority_end_two :
    (s : List ℕ) (ssp : Component)
    → (authority_end s ssp ≡ ssp.offset) ⊎ (ssp.offset + 2 ≤ authority_end s ssp)
unfolding authority_end
authority_end_two s ssp = ground arith

pub generic_two :
    (u : Uri)
    → ((parse_generic_ssp u).authority.length ≡ 0) ⊎ (2 ≤ (parse_generic_ssp u).authority.length)
unfolding parse_generic_ssp
generic_two u = elim (Bool-cases (u.ssp.length == 0)) [
  | inl z ↦ rw z (inl ((==_iff u.ssp.length 0).0 z))
  | inr z ↦ rw z (ground (arith, authority_end_two u.uri u.ssp))
]

generic_scheme : (u : Uri) → (parse_generic_ssp u).scheme ≡ u.scheme
unfolding parse_generic_ssp
generic_scheme u = elim (Bool-cases (u.ssp.length == 0)) [ inl z ↦ rw z refl | inr z ↦ rw z refl ]

generic_ssp : (u : Uri) → (parse_generic_ssp u).ssp ≡ u.ssp
unfolding parse_generic_ssp
generic_ssp u = elim (Bool-cases (u.ssp.length == 0)) [ inl z ↦ rw z refl | inr z ↦ rw z refl ]

-- The components that the two parsers find behind a scheme and its colon: where they report no
-- error, the parts of the authority follow one another to its end, and the authority, the path, the
-- query and the fragment fill the text behind the colon.
pub parse_authority-IsLaidOut_generic :
    (u : Uri)
    → u.scheme.offset ≡ 0
    → u.ssp.offset ≡ u.scheme.length + 1
    → u.ssp.offset + u.ssp.length ≡ length u.uri
    → (parse_authority (parse_generic_ssp u)).0 ≡ parse_ok
    → IsLaidOut (parse_authority (parse_generic_ssp u)).1
parse_authority-IsLaidOut_generic u h0 h1 h2 ok =
    parse_authority-IsLaidOut (parse_generic_ssp u) (rw (generic_scheme u) h0)
      (rw (generic_scheme u, generic_ssp u) h1) (parse_generic_ssp-IsChain u h2) (generic_two u) ok

-- The parsers leave the text and the flags alone.
abbrev Keeps : Uri → Uri → Type 0
Keeps u v = (v.validate ≡ u.validate) × (v.uri ≡ u.uri)

parse_host-Keeps : (o : ℕ) (rest : List ℕ) (u : Uri) → Keeps u (parse_host o rest u).1
unfolding parse_host
parse_host-Keeps o rest u =
    let n = host_end (is_eth (text u.uri u.scheme)) rest in
    let tail = drop n rest in
    elim (Bool-cases (leb n (length rest))) [
      | inr e ↦ rw e (refl, refl)
      | inl e ↦ elim (Bool-cases (length tail == 0)) [
        | inl z ↦ rw (e, z) (refl, refl)
        | inr z ↦ elim (Bool-cases (char_at tail 0 == b':')) [
          | inl y ↦ rw (e, z, y) (refl, refl)
          | inr y ↦ rw (e, z, y) (refl, refl)
        ]
      ]
    ]

parse_authority-Keeps : (u : Uri) → Keeps u (parse_authority u).1
unfolding parse_authority
parse_authority-Keeps u = elim (Bool-cases (u.authority.length == 0)) [
  | inl z ↦ rw z (refl, refl)
  | inr z ↦ rw z (parse_host-Keeps _ _ _)
]

generic-Keeps : (u : Uri) → Keeps u (parse_generic_ssp u)
unfolding parse_generic_ssp
generic-Keeps u = elim (Bool-cases (u.ssp.length == 0)) [
  | inl z ↦ rw z (refl, refl)
  | inr z ↦ rw z (refl, refl)
]

pub parsers_keep : (u : Uri) → Keeps u (parse_authority (parse_generic_ssp u)).1
parsers_keep u =
    let (flag, whole) = parse_authority-Keeps (parse_generic_ssp u) in
    let (flag', whole') = generic-Keeps u in (flag ∙ flag', whole ∙ whole')
