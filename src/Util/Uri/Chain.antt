-- ===== src/Util/Uri/Chain.antt =====
-- util/URI.cc: the components that parse_generic_ssp finds follow one another.
use oasys.Base.{
  ℕ, ◌+◌, ◌≤◌, ◌≡◌, refl, ap, ◌∙◌, true, not, ◌&&◌, ◌⊎◌, inl, inr, List, ◌++◌, length, arith,
  Bool-cases, ◌==◌, ==_iff,
}
use oasys.Util.Uri.Types.{Component, at_offset, Uri, text, char_at, is_char}
use oasys.Util.Uri.Search.{find_or_end-le, find_or_end_stop, text-join}
use oasys.Util.Uri.Parse.{
  authority_stop, path_stop, authority_end, path_end, query_end, fragment_end, parse_generic_ssp,
}

-- The authority, the path, the query and the fragment are neighbours, and fill the scheme-specific
-- part, which reaches to the end of the text.
pub record IsChain (u : Uri) : Type 0 where
  pub ssp_last : u.ssp.offset + u.ssp.length ≡ length u.uri
  pub authority_first : u.authority.offset ≡ u.ssp.offset
  pub path_next : u.path.offset ≡ u.authority.offset + u.authority.length
  pub query_next : u.query.offset ≡ u.path.offset + u.path.length
  pub fragment_next : u.fragment.offset ≡ u.query.offset + u.query.length
  pub fragment_last : u.fragment.offset + u.fragment.length ≡ length u.uri

module _ (s : List ℕ) where
  authority_end-bounds :
      (ssp : Component)
      → ssp.offset + ssp.length ≡ length s
      → (ssp.offset ≤ authority_end s ssp) × (authority_end s ssp ≤ length s)
  unfolding authority_end
  authority_end-bounds ssp e = ground (arith, find_or_end-le authority_stop s (ssp.offset + 2))

  path_end-bounds :
      (pos : ℕ) → pos ≤ length s → (pos ≤ path_end s pos) × (path_end s pos ≤ length s)
  unfolding path_end
  path_end-bounds pos h = ground (arith, find_or_end-le path_stop s pos)

  path_end_stop :
      (pos : ℕ)
      → pos ≤ length s
      → (path_end s pos ≡ length s) ⊎ (path_stop (char_at s (path_end s pos)) ≡ true)
  unfolding path_end
  path_end_stop pos h = elim (Bool-cases (pos == length s)) [
    | inl e ↦ rw e (inl ((==_iff pos (length s)).0 e))
    | inr e ↦ rw e (find_or_end_stop path_stop s pos h)
  ]

  query_end-bounds :
      (pos : ℕ) → pos ≤ length s → (pos ≤ query_end s pos) × (query_end s pos ≤ length s)
  unfolding query_end
  query_end-bounds pos h = ground (arith, find_or_end-le (is_char b'#') s pos)

  query_end_stop :
      (pos : ℕ)
      → pos ≤ length s
      → (pos ≡ length s) ⊎ (path_stop (char_at s pos) ≡ true)
      → (query_end s pos ≡ length s) ⊎ (is_char b'#' (char_at s (query_end s pos)) ≡ true)
  unfolding query_end path_stop
  query_end_stop pos h stop = elim (Bool-cases (not (pos == length s) && char_at s pos == b'?')) [
    | inl e ↦ rw e (find_or_end_stop (is_char b'#') s pos h)
    | inr e ↦ rw e (ground (arith, stop, e))
  ]

  fragment_end-last :
      (pos : ℕ)
      → (pos ≡ length s) ⊎ (is_char b'#' (char_at s pos) ≡ true)
      → fragment_end s pos ≡ length s
  unfolding fragment_end
  fragment_end-last pos stop = ground (arith, stop)

-- What `parse_generic_ssp` makes of a text whose scheme-specific part is known.
pub parse_generic_ssp-IsChain :
    (u : Uri) → u.ssp.offset + u.ssp.length ≡ length u.uri → IsChain (parse_generic_ssp u)
unfolding parse_generic_ssp
parse_generic_ssp-IsChain u e =
    let s = u.uri in
    let o = u.ssp.offset in
    let a = authority_end s u.ssp in
    let p = path_end s a in
    let q = query_end s p in
    let (a0, a1) = authority_end-bounds s u.ssp e in
    let (p0, p1) = path_end-bounds s a a1 in
    let (q0, q1) = query_end-bounds s p p1 in
    let f = fragment_end-last s q (query_end_stop s p p1 (path_end_stop s a a1)) in
    elim (Bool-cases (u.ssp.length == 0)) [
      | inl z ↦
          let n : u.ssp.length ≡ 0 = (==_iff u.ssp.length 0).0 z in
          rw z (record {
            ssp_last = e;
            authority_first = refl;
            path_next = omega (arith, n);
            query_next = omega (arith, n);
            fragment_next = omega (arith, n);
            fragment_last = e;
          })
      | inr z ↦ rw z (record {
        ssp_last = e;
        authority_first = refl;
        path_next = omega (arith, a0);
        query_next = omega (arith, p0);
        fragment_next = omega (arith, q0);
        fragment_last = omega (arith, f, q1);
      })
    ]

-- The texts of the components of a chain make up the scheme-specific part.
pub IsChain-text :
    (u : Uri)
    → IsChain u
    → text u.uri u.authority ++ (text u.uri u.path ++ (text u.uri u.query ++ text u.uri u.fragment))
      ≡ text u.uri u.ssp
IsChain-text u x =
    let s = u.uri in
    let qf = at_offset u.query.offset (u.query.length + u.fragment.length) in
    let pqf = at_offset u.path.offset (u.path.length + qf.length) in
    let n : u.authority.length + pqf.length ≡ u.ssp.length = omega (
      arith, x.authority_first, x.path_next, x.query_next, x.fragment_next, x.fragment_last,
      x.ssp_last,
    ) in
    ap (λ t. text s u.authority ++ (text s u.path ++ t))
      (text-join s u.query u.fragment x.fragment_next)
    ∙ (ap (λ t. text s u.authority ++ t) (text-join s u.path qf x.query_next)
        ∙ (text-join s u.authority pqf x.path_next ∙ rw (x.authority_first, n) refl))
