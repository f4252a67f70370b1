-- ===== src/Util/Uri/NormalizeTotal.antt =====
-- util/URI.cc: normalizing a validated URI fails no assertion.
use oasys.Base.{
  ℕ, suc, ◌+◌, ◌≤◌, ◌≡◌, refl, ap, ◌∙◌, sym, subst, Bool, true, false, inl, inr, List, Option, some,
  length, arith, Bool-cases, if◌then◌else◌, ◌>>=◌,
}
use oasys.Util.Uri.Types.{Component, at_offset, Uri, text}
use oasys.Util.Uri.Percent.{has_percent}
use oasys.Util.Uri.Setters.{splice, set_userinfo, set_host, set_path, set_query, set_fragment}
use oasys.Util.Uri.Dots.{resolve_dots, resolve_last}
use oasys.Util.Uri.DotLaws.{resolve_dots-total}
use oasys.Util.Uri.Decodable.{IsDecodable, IsDecodable-decode_text}
use oasys.Util.Uri.TextLength.{decode_text-le, resolve_last-le}
use oasys.Util.Uri.ValidTexts.{AreDecodable}
use oasys.Util.Uri.Layout.{IsLaidOut-Facts, shift, text-splice_after}
use oasys.Util.Uri.SetLaws.{set_path-IsUpdated, set_query-IsUpdated, set_fragment-IsUpdated}
use oasys.Util.Uri.SetAuthority.{set_host-IsUpdated, set_userinfo-IsUpdated}
use oasys.Util.Uri.Sound.{
  length-lower, length-lower_host, length-text, normalize_scheme-IsSound, lower_host-IsSound,
  IsSound, splice_short, userinfo_inside, host_inside, path_inside, query_inside, fragment_inside,
}
use oasys.Util.Uri.Normalize.{
  lower, normalize_scheme, decode_with, decode_authority, decode_path, decode_query,
  decode_fragment, lower_host, normalize_authority, normalize_path, normalize,
}

-- There is a result, and it has the property.
abbrev Gives : Option Uri → (Uri → Type 0) → Type 0
Gives m P = (v : Uri) × (m ≡ some v) × P v

bind-Gives :
    (m : Option Uri) (f : Uri → Option Uri) (P Q : Uri → Type 0)
    → Gives m P
    → ((v : Uri) → P v → Gives (f v) Q)
    → Gives (m >>= f) Q
bind-Gives m f P Q (v, e, p) g = let (w, d, q) = g v p in (w, ap (λ x. x >>= f) e ∙ d, q)

decode_with-Gives :
    (dec : ℕ → Bool) (set : List ℕ → Uri → Option Uri) (c : Component) (u : Uri) (P : Uri → Type 0)
    → IsDecodable (text u.uri c)
    → P u
    → ((t : List ℕ) → length t ≤ length (text u.uri c) → Gives (set t u) P)
    → Gives (decode_with dec set c u) P
decode_with-Gives dec set c u P d p h = elim (Bool-cases (has_percent (text u.uri c))) [
  | inr e ↦ rw e (u, refl, p)
  | inl e ↦
      let (t, dt) = IsDecodable-decode_text dec (text u.uri c) d in
      rw (e, dt) (h t (decode_text-le dec (text u.uri c) t dt))
]

-- Behind a part that is replaced by one of its length.
kept :
    (u : Uri) (c d : Component) (t : List ℕ)
    → c.offset + c.length ≤ length u.uri
    → length t ≡ c.length
    → c.offset + c.length ≤ d.offset
    → IsDecodable (text u.uri d)
    → IsDecodable (text (splice u.uri c t) d)
kept u c d t inside e after h =
    let s : shift c.length (length t) d.offset ≡ d.offset = omega (arith, e) in
    subst IsDecodable
      (sym (text-splice_after u.uri c t inside d after)
        ∙ ap (λ n. text (splice u.uri c t) (at_offset n d.length)) s)
      h

-- What is left to be decoded behind each step.
abbrev HostLeft : Uri → Type 0
HostLeft u =
    IsSound u
    × IsDecodable (text u.uri u.host)
    × IsDecodable (text u.uri u.path)
    × IsDecodable (text u.uri u.query)
    × IsDecodable (text u.uri u.fragment)

abbrev PathLeft : Uri → Type 0
PathLeft u =
    IsSound u
    × IsDecodable (text u.uri u.path)
    × IsDecodable (text u.uri u.query)
    × IsDecodable (text u.uri u.fragment)

abbrev QueryLeft : Uri → Type 0
QueryLeft u = IsSound u × IsDecodable (text u.uri u.query) × IsDecodable (text u.uri u.fragment)

abbrev FragmentLeft : Uri → Type 0
FragmentLeft u = IsSound u × IsDecodable (text u.uri u.fragment)

userinfo-Gives :
    (dec : ℕ → Bool) (u : Uri)
    → IsDecodable (text u.uri u.userinfo)
    → HostLeft u
    → Gives (decode_with dec set_userinfo u.userinfo u) HostLeft
userinfo-Gives dec u d p = decode_with-Gives dec set_userinfo u.userinfo u HostLeft d p (λ t le.
    let ((l, ok, short), h, pa, q, f) = p in
    let inside = userinfo_inside u l in
    let fits : length t ≤ u.userinfo.length = omega (arith, length-text u.uri u.userinfo inside) in
    let (v, e, lv, okv, new, whole, (k0, (k1, (k2, (k3, (k4, (k5, k6))))))) =
      set_userinfo-IsUpdated u ok l t short (omega arith) in
    (
      v,
      e,
      (
        (lv, okv, splice_short u v u.userinfo t short inside fits whole),
        subst IsDecodable (sym k1) h,
        subst IsDecodable (sym k3) pa,
        subst IsDecodable (sym k4) q,
        subst IsDecodable (sym k5) f,
      ),
    ))

host-Gives :
    (dec : ℕ → Bool) (u : Uri) → HostLeft u → Gives (decode_with dec set_host u.host u) PathLeft
host-Gives dec u (s, h, pa, q, f) =
    decode_with-Gives dec set_host u.host u PathLeft h (s, pa, q, f)
      (λ t le.
        let (l, ok, short) = s in
        let inside = host_inside u l in
        let fits : length t ≤ u.host.length = omega (arith, length-text u.uri u.host inside) in
        let (v, e, lv, okv, new, whole, (k0, (k1, (k2, (k3, (k4, (k5, k6))))))) =
          set_host-IsUpdated u ok l t short (omega arith) in
        (
          v,
          e,
          (
            (lv, okv, splice_short u v u.host t short inside fits whole),
            subst IsDecodable (sym k3) pa,
            subst IsDecodable (sym k4) q,
            subst IsDecodable (sym k5) f,
          ),
        ))

abbrev with_lower_host : Uri → Uri
with_lower_host u = record u { uri = splice u.uri u.host (lower_host 0 (text u.uri u.host)) }

lower_host-PathLeft : (u : Uri) → PathLeft u → PathLeft (with_lower_host u)
lower_host-PathLeft u (sound, pa, q, f) =
    let l = sound.0 in
    let facts = IsLaidOut-Facts u l in
    let inside : u.host.offset + u.host.length ≤ length u.uri = omega (arith, facts) in
    let t = lower_host 0 (text u.uri u.host) in
    let e = length-lower_host 0 (text u.uri u.host) ∙ length-text u.uri u.host inside in
    (
      lower_host-IsSound u sound,
      kept u u.host u.path t inside e (omega (arith, facts)) pa,
      kept u u.host u.query t inside e (omega (arith, facts)) q,
      kept u u.host u.fragment t inside e (omega (arith, facts)) f,
    )

normalize_scheme-HostLeft :
    (u : Uri)
    → IsSound u
    → AreDecodable u
    → HostLeft (normalize_scheme u)
      × IsDecodable (text (normalize_scheme u).uri (normalize_scheme u).userinfo)
unfolding normalize_scheme
normalize_scheme-HostLeft u sound (ui, h, pa, q, f) =
    let l = sound.0 in
    let facts = IsLaidOut-Facts u l in
    let inside : u.scheme.offset + u.scheme.length ≤ length u.uri = omega (arith, facts) in
    let t = lower (text u.uri u.scheme) in
    let e = length-lower (text u.uri u.scheme) ∙ length-text u.uri u.scheme inside in
    (
      (
        normalize_scheme-IsSound u sound,
        kept u u.scheme u.host t inside e (omega (arith, facts)) h,
        kept u u.scheme u.path t inside e (omega (arith, facts)) pa,
        kept u u.scheme u.query t inside e (omega (arith, facts)) q,
        kept u u.scheme u.fragment t inside e (omega (arith, facts)) f,
      ),
      kept u u.scheme u.userinfo t inside e (omega (arith, facts)) ui,
    )

normalize_authority-Gives :
    (u : Uri)
    → HostLeft u
    → IsDecodable (text u.uri u.userinfo)
    → Gives (normalize_authority u) PathLeft
unfolding normalize_authority decode_authority
normalize_authority-Gives u p d =
    bind-Gives _ _ PathLeft PathLeft
      (bind-Gives _ _ HostLeft PathLeft (userinfo-Gives _ u d p) (λ v pv. host-Gives _ v pv))
      (λ v pv. (with_lower_host v, refl, lower_host-PathLeft v pv))

set_path-Gives :
    (u : Uri) (t : List ℕ)
    → QueryLeft u
    → length t ≤ length (text u.uri u.path)
    → Gives (set_path t u) QueryLeft
set_path-Gives u t ((l, ok, short), q, f) le =
    let inside = path_inside u l in
    let fits : length t ≤ u.path.length = omega (arith, length-text u.uri u.path inside) in
    let (v, e, lv, okv, new, whole, (k0, (k1, (k2, (k3, (k4, (k5, (k6, k7)))))))) =
      set_path-IsUpdated u ok l t short (omega arith) in
    (
      v,
      e,
      (
        (lv, okv, splice_short u v u.path t short inside fits whole),
        subst IsDecodable (sym k5) q,
        subst IsDecodable (sym k6) f,
      ),
    )

if_path-Gives :
    (u : Uri) (r : Bool × List ℕ)
    → QueryLeft u
    → length r.1 ≤ length (text u.uri u.path)
    → Gives (if r.0 then set_path r.1 u else some u) QueryLeft
if_path-Gives u (true, t) p le = set_path-Gives u t p le
if_path-Gives u (false, t) p le = (u, refl, p)

resolved-Gives :
    (u : Uri)
    → QueryLeft u
    → Gives
        (resolve_dots (suc (length (text u.uri u.path))) 0 false (text u.uri u.path) >>= λ r.
          if (resolve_last r).0 then set_path (resolve_last r).1 u else some u)
        QueryLeft
resolved-Gives u p =
    let path = text u.uri u.path in
    let (r, e, le) = resolve_dots-total (suc (length path)) 0 false path (omega arith) in
    rw e (if_path-Gives u (resolve_last r) p (omega (arith, le, resolve_last-le r)))

normalize_path-Gives : (u : Uri) → PathLeft u → Gives (normalize_path u) QueryLeft
unfolding normalize_path decode_path
normalize_path-Gives u (s, pa, q, f) =
    bind-Gives _ _ QueryLeft QueryLeft
      (decode_with-Gives _ set_path u.path u QueryLeft pa (s, q, f)
        (λ t le. set_path-Gives u t (s, q, f) le))
      resolved-Gives

decode_query-Gives : (u : Uri) → QueryLeft u → Gives (decode_query u) FragmentLeft
unfolding decode_query
decode_query-Gives u (s, q, f) =
    decode_with-Gives _ set_query u.query u FragmentLeft q (s, f)
      (λ t le.
        let (l, ok, short) = s in
        let inside = query_inside u l in
        let fits : length t ≤ u.query.length = omega (arith, length-text u.uri u.query inside) in
        let (v, e, lv, okv, new, whole, (k0, (k1, (k2, (k3, (k4, (k5, (k6, k7)))))))) =
          set_query-IsUpdated u ok l t short (omega arith) in
        (
          v,
          e,
          (
            (lv, okv, splice_short u v u.query t short inside fits whole),
            subst IsDecodable (sym k6) f,
          ),
        ))

decode_fragment-Gives : (u : Uri) → FragmentLeft u → Gives (decode_fragment u) IsSound
unfolding decode_fragment
decode_fragment-Gives u (s, f) = decode_with-Gives _ set_fragment u.fragment u IsSound f s (λ t le.
    let (l, ok, short) = s in
    let inside = fragment_inside u l in
    let fits : length t ≤ u.fragment.length = omega (arith, length-text u.uri u.fragment inside) in
    let (v, e, lv, okv, new, whole, rest) = set_fragment-IsUpdated u ok l t short (omega arith) in
    (v, e, (lv, okv, splice_short u v u.fragment t short inside fits whole)))

pub normalize-total : (u : Uri) → IsSound u → AreDecodable u → (v : Uri) × (normalize u ≡ some v)
unfolding normalize
normalize-total u sound d =
    let (p, ui) = normalize_scheme-HostLeft u sound d in
    let (v, e, s) =
      bind-Gives _ _ PathLeft IsSound (normalize_authority-Gives (normalize_scheme u) p ui) (λ v pv.
        bind-Gives _ _ QueryLeft IsSound (normalize_path-Gives v pv) (λ w pw.
          bind-Gives _ _ FragmentLeft IsSound (decode_query-Gives w pw) decode_fragment-Gives)) in
    (v, e)
