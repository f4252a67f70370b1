-- ===== src/Util/Uri/NormalizeLayout.antt =====
-- util/URI.cc: normalizing a URI keeps its components laid out.
use oasys.Base.{
  ℕ, suc, ◌+◌, ◌^◌, ◌<◌, ◌≤◌, ◌≡◌, sym, subst, Bool, true, false, inl, inr, List, Option, none,
  some, length, arith, Bool-cases, if◌then◌else◌, ◌>>=◌,
}
use oasys.Util.Uri.Types.{parse_ok, Component, Uri, text}
use oasys.Util.Uri.Percent.{no_percent, decode_text, has_percent}
use oasys.Util.Uri.Setters.{set_userinfo, set_host, set_path, set_query, set_fragment}
use oasys.Util.Uri.Dots.{resolve_dots, resolve_last}
use oasys.Util.Uri.DotLaws.{resolve_dots-total}
use oasys.Util.Uri.TextLength.{AtMost, decode_text-AtMost, resolve_last-le}
use oasys.Util.Uri.Layout.{IsLaidOut}
use oasys.Util.Uri.SetTypes.{
  IsUpdated, userinfo_part, besides_userinfo, host_part, besides_host, path_part, besides_path,
  query_part, besides_query, fragment_part, besides_fragment,
}
use oasys.Util.Uri.SetLaws.{set_path-IsUpdated, set_query-IsUpdated, set_fragment-IsUpdated}
use oasys.Util.Uri.SetAuthority.{set_host-IsUpdated, set_userinfo-IsUpdated}
use oasys.Util.Uri.Sound.{
  IsSound, splice_short, length-text, userinfo_inside, host_inside, path_inside, query_inside,
  fragment_inside, normalize_scheme-IsSound, lower_host-IsSound,
}
use oasys.Util.Uri.Normalize.{
  normalize_scheme, decode_with, decode_authority, decode_path, decode_query, decode_fragment,
  normalize_authority, normalize_path, normalize,
}

-- The URI is sound, if no assertion failed.
abbrev pub IsParsed : Option Uri → Type 0
IsParsed none = Unit {0}
IsParsed (some v) = IsSound v

bind-IsParsed :
    (m : Option Uri) (f : Uri → Option Uri)
    → IsParsed m
    → ((v : Uri) → IsSound v → IsParsed (f v))
    → IsParsed (m >>= f)
bind-IsParsed none f h g = tt
bind-IsParsed (some v) f h g = g v h

of_set :
    (part : Uri → Component) (others : List (Uri → Component)) (t : List ℕ) (u : Uri)
    (result : Option Uri)
    → length u.uri < 2 ^ 31
    → (part u).offset + (part u).length ≤ length u.uri
    → length t ≤ (part u).length
    → IsUpdated part others t u result
    → IsParsed result
of_set part others t u result short inside le (v, e, l, ok, new, whole, rest) =
    subst IsParsed (sym e) (l, ok, splice_short u v (part u) t short inside le whole)

then-IsParsed :
    (n : ℕ) (m : Option (List ℕ)) (f : List ℕ → Option Uri)
    → AtMost n m
    → ((t : List ℕ) → length t ≤ n → IsParsed (f t))
    → IsParsed (m >>= f)
then-IsParsed n none f h g = tt
then-IsParsed n (some t) f h g = g t h

decode_with-IsParsed :
    (dec : ℕ → Bool) (set : List ℕ → Uri → Option Uri) (c : Component) (u : Uri)
    → IsSound u
    → ((t : List ℕ) → length t ≤ length (text u.uri c) → IsParsed (set t u))
    → IsParsed (decode_with dec set c u)
decode_with-IsParsed dec set c u sound h = elim (Bool-cases (has_percent (text u.uri c))) [
  | inr e ↦ rw e sound
  | inl e ↦ rw e (
      then-IsParsed (length (text u.uri c)) (decode_text dec no_percent (text u.uri c))
        (λ t. set t u) (decode_text-AtMost dec (text u.uri c)) h)
]

-- A text that takes the place of a component and is not longer.
module _ (u : Uri) (l : IsLaidOut u) (ok : u.parse_err ≡ parse_ok) (short : length u.uri < 2 ^ 31)
    (t : List ℕ) where
  set_userinfo-IsParsed : length t ≤ length (text u.uri u.userinfo) → IsParsed (set_userinfo t u)
  set_userinfo-IsParsed h =
      let inside = userinfo_inside u l in
      let le : length t ≤ u.userinfo.length = omega (arith, length-text u.uri u.userinfo inside) in
      of_set userinfo_part besides_userinfo t u _ short inside le
        (set_userinfo-IsUpdated u ok l t short (omega arith))

  set_host-IsParsed : length t ≤ length (text u.uri u.host) → IsParsed (set_host t u)
  set_host-IsParsed h =
      let inside = host_inside u l in
      let le : length t ≤ u.host.length = omega (arith, length-text u.uri u.host inside) in
      of_set host_part besides_host t u _ short inside le
        (set_host-IsUpdated u ok l t short (omega arith))

  set_path-IsParsed : length t ≤ length (text u.uri u.path) → IsParsed (set_path t u)
  set_path-IsParsed h =
      let inside = path_inside u l in
      let le : length t ≤ u.path.length = omega (arith, length-text u.uri u.path inside) in
      of_set path_part besides_path t u _ short inside le
        (set_path-IsUpdated u ok l t short (omega arith))

  set_query-IsParsed : length t ≤ length (text u.uri u.query) → IsParsed (set_query t u)
  set_query-IsParsed h =
      let inside = query_inside u l in
      let le : length t ≤ u.query.length = omega (arith, length-text u.uri u.query inside) in
      of_set query_part besides_query t u _ short inside le
        (set_query-IsUpdated u ok l t short (omega arith))

  set_fragment-IsParsed : length t ≤ length (text u.uri u.fragment) → IsParsed (set_fragment t u)
  set_fragment-IsParsed h =
      let inside = fragment_inside u l in
      let le : length t ≤ u.fragment.length = omega (arith, length-text u.uri u.fragment inside) in
      of_set fragment_part besides_fragment t u _ short inside le
        (set_fragment-IsUpdated u ok l t short (omega arith))

module _ (u : Uri) (sound : IsSound u) where
  decode_path-IsParsed : IsParsed (decode_path u)
  unfolding decode_path
  decode_path-IsParsed =
      decode_with-IsParsed _ set_path u.path u sound (set_path-IsParsed u sound.0 sound.1 sound.2)

  decode_query-IsParsed : IsParsed (decode_query u)
  unfolding decode_query
  decode_query-IsParsed =
      decode_with-IsParsed _ set_query u.query u sound
        (set_query-IsParsed u sound.0 sound.1 sound.2)

  decode_fragment-IsParsed : IsParsed (decode_fragment u)
  unfolding decode_fragment
  decode_fragment-IsParsed =
      decode_with-IsParsed _ set_fragment u.fragment u sound
        (set_fragment-IsParsed u sound.0 sound.1 sound.2)

  decode_userinfo-IsParsed : (dec : ℕ → Bool) → IsParsed (decode_with dec set_userinfo u.userinfo u)
  decode_userinfo-IsParsed dec =
      decode_with-IsParsed dec set_userinfo u.userinfo u sound
        (set_userinfo-IsParsed u sound.0 sound.1 sound.2)

  decode_host-IsParsed : (dec : ℕ → Bool) → IsParsed (decode_with dec set_host u.host u)
  decode_host-IsParsed dec =
      decode_with-IsParsed dec set_host u.host u sound (set_host-IsParsed u sound.0 sound.1 sound.2)

decode_authority-IsParsed : (u : Uri) → IsSound u → IsParsed (decode_authority u)
unfolding decode_authority
decode_authority-IsParsed u sound =
    bind-IsParsed _ _ (decode_userinfo-IsParsed u sound _) (λ v sv. decode_host-IsParsed v sv _)

normalize_authority-IsParsed : (u : Uri) → IsSound u → IsParsed (normalize_authority u)
unfolding normalize_authority
normalize_authority-IsParsed u sound =
    bind-IsParsed _ _ (decode_authority-IsParsed u sound) lower_host-IsSound

set_resolved-IsParsed :
    (u : Uri)
    → IsSound u
    → (r : Bool × List ℕ) → length r.1 ≤ length (text u.uri u.path)
    → IsParsed (if r.0 then set_path r.1 u else some u)
set_resolved-IsParsed u (l, ok, short) (true, t) h = set_path-IsParsed u l ok short t h
set_resolved-IsParsed u sound (false, t) h = sound

resolved-IsParsed :
    (u : Uri)
    → IsSound u
    → IsParsed (
        resolve_dots (suc (length (text u.uri u.path))) 0 false (text u.uri u.path) >>= λ r.
        if (resolve_last r).0 then set_path (resolve_last r).1 u else some u)
resolved-IsParsed u sound =
    let path = text u.uri u.path in
    let (r, e, le) = resolve_dots-total (suc (length path)) 0 false path (omega arith) in
    rw e (set_resolved-IsParsed u sound (resolve_last r) (omega (arith, le, resolve_last-le r)))

normalize_path-IsParsed : (u : Uri) → IsSound u → IsParsed (normalize_path u)
unfolding normalize_path
normalize_path-IsParsed u sound = bind-IsParsed _ _ (decode_path-IsParsed u sound) resolved-IsParsed

pub normalize-IsParsed : (u : Uri) → IsSound u → IsParsed (normalize u)
unfolding normalize
normalize-IsParsed u sound =
    bind-IsParsed _ _
      (normalize_authority-IsParsed (normalize_scheme u) (normalize_scheme-IsSound u sound))
      (λ v sv.
        bind-IsParsed _ _ (normalize_path-IsParsed v sv)
          (λ w sw. bind-IsParsed _ _ (decode_query-IsParsed w sw) decode_fragment-IsParsed))
