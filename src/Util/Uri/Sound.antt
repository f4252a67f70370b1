-- ===== src/Util/Uri/Sound.antt =====
-- util/URI.cc: URIs whose components are laid out in a text that is not too long for the setters.
use oasys.Base.{
  ℕ, zero, suc, ◌+◌, ◌^◌, ◌<◌, ◌≤◌, ◌≡◌, refl, ap, ◌∙◌, List, [], ◌∷◌, length, drop, arith, ◌==◌,
  if◌then◌else◌, length-drop, length-take,
}
use oasys.Util.Uri.Types.{parse_ok, Component, Uri, text}
use oasys.Util.Uri.Setters.{splice}
use oasys.Util.Uri.Layout.{IsLaidOut, IsLaidOut-Facts, laid_out, length-splice}
use oasys.Util.Uri.Normalize.{lower, normalize_scheme, lower_host}

-- A URI whose components are known and laid out, with a text whose lengths an `int` holds.
abbrev pub IsSound : Uri → Type 0
IsSound u = IsLaidOut u × (u.parse_err ≡ parse_ok) × (length u.uri < 2 ^ 31)

-- A part replaced by a text that is not longer.
pub splice_short :
    (u v : Uri) (c : Component) (t : List ℕ)
    → length u.uri < 2 ^ 31
    → c.offset + c.length ≤ length u.uri
    → length t ≤ c.length
    → v.uri ≡ splice u.uri c t
    → length v.uri < 2 ^ 31
splice_short u v c t short inside le e = omega (arith, length-splice u.uri c t inside, ap length e)

-- A part replaced by one of its length.
same_length :
    (u : Uri) (c : Component) (t : List ℕ)
    → IsSound u
    → c.offset + c.length ≤ length u.uri
    → length t ≡ c.length
    → IsSound (record u { uri = splice u.uri c t })
same_length u c t (l, ok, short) inside e =
    let v : Uri = record u { uri = splice u.uri c t } in
    (
      laid_out v (ground (arith, IsLaidOut-Facts u l, length-splice u.uri c t inside, e)),
      ok,
      splice_short u v c t short inside (omega arith) refl,
    )

pub length-lower : (s : List ℕ) → length (lower s) ≡ length s
unfolding lower
length-lower [] = refl
length-lower (c ∷ cs) = ap suc (length-lower cs)

pub length-lower_host : (skip : ℕ) (s : List ℕ) → length (lower_host skip s) ≡ length s
unfolding lower_host
length-lower_host skip [] = refl
length-lower_host zero (c ∷ cs) = ap suc (length-lower_host (if c == b'%' then 2 else 0) cs)
length-lower_host (suc skip) (c ∷ cs) = ap suc (length-lower_host skip cs)

pub length-text :
    (s : List ℕ) (c : Component) → c.offset + c.length ≤ length s → length (text s c) ≡ c.length
length-text s c h = grind (arith, length-take c.length (drop c.offset s), length-drop c.offset s)

-- In a URI that is laid out, each component is inside of the text.
module _ (u : Uri) (l : IsLaidOut u) where
  pub userinfo_inside : u.userinfo.offset + u.userinfo.length ≤ length u.uri
  userinfo_inside = omega (arith, IsLaidOut-Facts u l)

  pub host_inside : u.host.offset + u.host.length ≤ length u.uri
  host_inside = omega (arith, IsLaidOut-Facts u l)

  pub path_inside : u.path.offset + u.path.length ≤ length u.uri
  path_inside = omega (arith, IsLaidOut-Facts u l)

  pub query_inside : u.query.offset + u.query.length ≤ length u.uri
  query_inside = omega (arith, IsLaidOut-Facts u l)

  pub fragment_inside : u.fragment.offset + u.fragment.length ≤ length u.uri
  fragment_inside = omega (arith, IsLaidOut-Facts u l)

module _ (u : Uri) (sound : IsSound u) where
  pub normalize_scheme-IsSound : IsSound (normalize_scheme u)
  unfolding normalize_scheme
  normalize_scheme-IsSound =
      let inside : u.scheme.offset + u.scheme.length ≤ length u.uri =
        omega (arith, IsLaidOut-Facts u sound.0) in
      same_length u u.scheme (lower (text u.uri u.scheme)) sound inside
        (length-lower (text u.uri u.scheme) ∙ length-text u.uri u.scheme inside)

  pub lower_host-IsSound :
      IsSound (record u { uri = splice u.uri u.host (lower_host 0 (text u.uri u.host)) })
  lower_host-IsSound =
      let inside = host_inside u sound.0 in
      same_length u u.host (lower_host 0 (text u.uri u.host)) sound inside
        (length-lower_host 0 (text u.uri u.host) ∙ length-text u.uri u.host inside)
