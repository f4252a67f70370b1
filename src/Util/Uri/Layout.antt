-- ===== src/Util/Uri/Layout.antt =====
-- util/URI.cc: where the components of a URI stand in its text.
use oasys.Base.{
  ℕ, zero, suc, ◌+◌, ◌-◌, ◌^◌, ◌<◌, ◌≤◌, ◌≡◌, refl, ap, ◌∙◌, sym, false, List, [], ◌∷◌, ◌++◌, some,
  length, take, drop, arith, ◌==◌, length-append, length-take, length-drop, drop-append, drop-drop,
  append-take-drop, take-append, take-append_le,
}
use mathlib.Core.List.{append_assoc}
use oasys.Util.Uri.Types.{Component, at_offset, Uri, text}
use oasys.Util.Uri.Chain.{IsChain}
use oasys.Util.Uri.Setters.{splice, adjust, adjust_offset, adjust_length}

-- The scheme comes first and a colon behind it; the userinfo, the host and the port follow one
-- another within the authority, to its end.
pub record IsLaidOut (u : Uri) : Type 0 where
  pub scheme_first : u.scheme.offset ≡ 0
  pub ssp_next : u.ssp.offset ≡ u.scheme.length + 1
  pub chain : IsChain u
  pub userinfo_in : u.authority.offset ≤ u.userinfo.offset
  pub host_next : u.host.offset ≡ u.userinfo.offset + u.userinfo.length
  pub port_next : u.host.offset + u.host.length ≤ u.port.offset
  pub port_last : u.port.offset + u.port.length ≡ u.authority.offset + u.authority.length

-- The equations of a layout.
abbrev pub Facts : Uri → Type 0
Facts u =
    (u.scheme.offset ≡ 0)
    × (u.ssp.offset ≡ u.scheme.length + 1)
    × (u.ssp.offset + u.ssp.length ≡ length u.uri)
    × (u.authority.offset ≡ u.ssp.offset)
    × (u.path.offset ≡ u.authority.offset + u.authority.length)
    × (u.query.offset ≡ u.path.offset + u.path.length)
    × (u.fragment.offset ≡ u.query.offset + u.query.length)
    × (u.fragment.offset + u.fragment.length ≡ length u.uri)
    × (u.authority.offset ≤ u.userinfo.offset)
    × (u.host.offset ≡ u.userinfo.offset + u.userinfo.length)
    × (u.host.offset + u.host.length ≤ u.port.offset)
    × (u.port.offset + u.port.length ≡ u.authority.offset + u.authority.length)

pub IsLaidOut-Facts : (u : Uri) → IsLaidOut u → Facts u
IsLaidOut-Facts u l = (
  l.scheme_first, l.ssp_next, l.chain.ssp_last, l.chain.authority_first, l.chain.path_next,
  l.chain.query_next, l.chain.fragment_next, l.chain.fragment_last, l.userinfo_in, l.host_next,
  l.port_next, l.port_last,
)

pub laid_out : (u : Uri) → Facts u → IsLaidOut u
laid_out u (f0, f1, f2, f3, f4, f5, f6, f7, f8, f9, f10, f11) = record {
  scheme_first = f0;
  ssp_next = f1;
  chain = record {
    ssp_last = f2;
    authority_first = f3;
    path_next = f4;
    query_next = f5;
    fragment_next = f6;
    fragment_last = f7;
  };
  userinfo_in = f8;
  host_next = f9;
  port_next = f10;
  port_last = f11;
}

-- A place behind a part that has been replaced.
abbrev pub shift : ℕ → ℕ → ℕ → ℕ
shift old new n = n + new - old

pub adjust-some :
    (old new n : ℕ)
    → old ≤ n
    → n < 2 ^ 31
    → new < 2 ^ 31
    → adjust old new n ≡ some (shift old new n)
unfolding adjust
adjust-some old new n h short fits = ground arith

pub adjust_length-some :
    (old new : ℕ) (c : Component)
    → old ≤ c.length
    → c.length < 2 ^ 31
    → new < 2 ^ 31
    → adjust_length old new c ≡ some (at_offset c.offset (shift old new c.length))
unfolding adjust_length
adjust_length-some old new c h short fits = rw (adjust-some old new c.length h short fits) refl

pub adjust_offset-some :
    (old new : ℕ) (c : Component)
    → old < c.offset
    → c.offset < 2 ^ 31
    → new < 2 ^ 31
    → adjust_offset old new c ≡ some (at_offset (shift old new c.offset) c.length)
unfolding adjust_offset
adjust_offset-some old new c h short fits =
    let n : (c.offset == 0) ≡ false = ground arith in
    rw (n, adjust-some old new c.offset (omega arith) short fits) refl

drop-append_le : (n : ℕ) (x y : List ℕ) → n ≤ length x → drop n (x ++ y) ≡ drop n x ++ y
unfolding drop
drop-append_le zero x y h = refl
drop-append_le (suc n) [] y h = absurd (omega arith)
drop-append_le (suc n) (c ∷ x) y h = drop-append_le n x y (omega arith)

text-append_before :
    (x y : List ℕ) (d : Component) → d.offset + d.length ≤ length x → text (x ++ y) d ≡ text x d
text-append_before x y d h =
    rw (drop-append_le d.offset x y (omega arith))
      (take-append_le d.length (drop d.offset x) y (omega (arith, length-drop d.offset x)))

text-append_after :
    (x y : List ℕ) (d : Component)
    → length x ≤ d.offset
    → text (x ++ y) d ≡ text y (at_offset (d.offset - length x) d.length)
text-append_after x y d h =
    let k = d.offset - length x in
    let o : d.offset ≡ length x + k = omega arith in
    ap (take d.length) (
      ap (λ n. drop n (x ++ y)) o
      ∙ (sym (drop-drop (length x) k (x ++ y)) ∙ ap (drop k) (drop-append x y)))

-- A text with a part replaced: the new part, and what stands before and behind the old one.
module _ (s : List ℕ) (c : Component) (t : List ℕ) (inside : c.offset + c.length ≤ length s) where
  length-pre : length (take c.offset s) ≡ c.offset
  length-pre = grind (arith, length-take c.offset s)

  pub length-splice : length (splice s c t) ≡ shift c.length (length t) (length s)
  length-splice =
      let a = length-append (take c.offset s) (t ++ drop (c.offset + c.length) s) in
      let b = length-append t (drop (c.offset + c.length) s) in
      let y = length-drop (c.offset + c.length) s in omega (arith, a, b, length-pre, y)

  pub text-splice : text (splice s c t) (at_offset c.offset (length t)) ≡ t
  text-splice =
      let rest = t ++ drop (c.offset + c.length) s in
      ap (take (length t)) (
        ap (λ n. drop n (take c.offset s ++ rest)) (sym length-pre)
        ∙ drop-append (take c.offset s) rest)
      ∙ take-append t (drop (c.offset + c.length) s)

  pub text-splice_before :
      (d : Component) → d.offset + d.length ≤ c.offset → text (splice s c t) d ≡ text s d
  text-splice_before d h =
      text-append_before (take c.offset s) (t ++ drop (c.offset + c.length) s) d
        (omega (arith, length-pre))
      ∙ (sym (text-append_before (take c.offset s) (drop c.offset s) d (omega (arith, length-pre)))
          ∙ ap (λ x. text x d) (append-take-drop c.offset s))

  pub text-splice_after :
      (d : Component)
      → c.offset + c.length ≤ d.offset
      → text (splice s c t) (at_offset (shift c.length (length t) d.offset) d.length) ≡ text s d
  text-splice_after d h =
      let x = take c.offset s in
      let y = drop (c.offset + c.length) s in
      let z = take (c.offset + c.length) s in
      let lz : length z ≡ c.offset + c.length =
        grind (arith, length-take (c.offset + c.length) s) in
      let lx = length-append x t in
      let k : shift c.length (length t) d.offset - length (x ++ t) ≡ d.offset - length z =
        omega (arith, lx, length-pre, lz) in
      ap (λ r. text r (at_offset (shift c.length (length t) d.offset) d.length))
        (sym (append_assoc x t y))
      ∙ (text-append_after (x ++ t) y (at_offset (shift c.length (length t) d.offset) d.length)
            (omega (arith, lx, length-pre))
          ∙ (ap (λ n. text y (at_offset n d.length)) k
              ∙ (sym (text-append_after z y d (omega (arith, lz)))
                  ∙ ap (λ r. text r d) (append-take-drop (c.offset + c.length) s))))
