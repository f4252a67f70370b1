-- ===== src/Util/Uri/Compose.antt =====
-- util/URI.cc: parse_generic_ssp finds the parts that a text was put together from.
use oasys.Base.{
  ℕ, ◌+◌, ◌-◌, ◌≡◌, refl, ap, ◌∙◌, sym, Bool, false, inl, inr, List, [], ◌∷◌, ◌++◌, length, take,
  drop, arith, Bool-cases, ◌==◌, ==_iff, Option, none, some, drop-append, drop-drop, take-append,
  length-append,
}
use mathlib.Core.List.{append_assoc, append-nil}
use oasys.Util.Uri.Types.{at_offset, Uri, text, find_or_end, char_at, is_char}
use oasys.Util.Uri.Search.{Lacks, Begins, prefix-append, char_at-drop}
use oasys.Util.Uri.Parse.{
  authority_stop, path_stop, authority_end, path_end, query_end, fragment_end, parse_generic_ssp,
}
use oasys.Util.Uri.PartsText.{
  Parts, authority_text, query_text, fragment_text, print, FitsPath, FitsQuery, IsPrintable,
  tail_Begins, fragment_Begins, after_authority, rootless_slashes,
}

module _ (pre : List ℕ) where
  pub char_at-append : (t : List ℕ) (i : ℕ) → char_at (pre ++ t) (length pre + i) ≡ char_at t i
  char_at-append t i =
      sym (char_at-drop (pre ++ t) (length pre) i) ∙ ap (λ s. char_at s i) (drop-append pre t)

  pub char_at_here : (t : List ℕ) → char_at (pre ++ t) (length pre) ≡ char_at t 0
  char_at_here t = ap (char_at (pre ++ t)) (omega arith) ∙ char_at-append t 0

  pub find_here :
      (p : ℕ → Bool) (s t : List ℕ)
      → Lacks p s
      → Begins p t
      → find_or_end p (pre ++ (s ++ t)) (length pre) ≡ length (pre ++ s)
  find_here p s t l b =
      rw (drop-append pre (s ++ t), prefix-append p s t l b) (omega (arith, length-append pre s))

-- The ends, one after the other, with what stands before each.
authority_end-print :
    (pre : List ℕ) (authority : Option (List ℕ)) (path : List ℕ) (q f : Option (List ℕ))
    → FitsPath authority path
    → authority_end
        (pre ++ (authority_text authority ++ (path ++ (query_text q ++ fragment_text f))))
        (at_offset
          (length pre)
          (length (authority_text authority ++ (path ++ (query_text q ++ fragment_text f)))))
      ≡ length (pre ++ authority_text authority)
unfolding authority_end authority_text
authority_end-print pre none path q f fits =
    let t = path ++ (query_text q ++ fragment_text f) in
    rw (char_at_here pre t, char_at-append pre t 1, rootless_slashes path q f fits)
      (ap length (sym (append-nil pre)))
authority_end-print pre (some a) path q f (lacks, begins) =
    let rest = path ++ (query_text q ++ fragment_text f) in
    let t = b'/' ∷ b'/' ∷ (a ++ rest) in
    let c0 : char_at (pre ++ t) (length pre) ≡ b'/' = unfold char_at in char_at_here pre t in
    let c1 : char_at (pre ++ t) (length pre + 1) ≡ b'/' =
      unfold char_at in char_at-append pre t 1 in
    let d : drop (length pre + 2) (pre ++ t) ≡ a ++ rest =
      sym (drop-drop (length pre) 2 (pre ++ t))
      ∙ (ap (drop 2) (drop-append pre t) ∙ unfold drop in refl) in
    let n = prefix-append authority_stop a rest lacks (after_authority path q f begins) in
    rw (c0, c1, d, n) (ground (arith, length-append pre (b'/' ∷ b'/' ∷ a)))

path_end-print :
    (pre path : List ℕ) (q f : Option (List ℕ))
    → Lacks path_stop path
    → path_end (pre ++ (path ++ (query_text q ++ fragment_text f))) (length pre)
      ≡ length (pre ++ path)
unfolding path_end
path_end-print pre path q f l =
    let rest = query_text q ++ fragment_text f in
    let t = pre ++ (path ++ rest) in
    elim (Bool-cases (length pre == length t)) [
      | inl e ↦ rw e (
          omega (
            arith,
            (==_iff (length pre) (length t)).0 e,
            length-append pre (path ++ rest),
            length-append path rest,
            length-append pre path,
          ))
      | inr e ↦ rw e (find_here pre path_stop path rest l (tail_Begins q f))
    ]

query_end_none :
    (pre : List ℕ) (f : Option (List ℕ))
    → query_end (pre ++ fragment_text f) (length pre) ≡ length pre
unfolding query_end fragment_text
query_end_none pre none = rw (append-nil pre) (ground arith)
query_end_none pre (some f) =
    let c0 : char_at (pre ++ b'#' ∷ f) (length pre) ≡ b'#' =
      unfold char_at in char_at_here pre (b'#' ∷ f) in
    rw c0 (ground arith)

query_end-print :
    (pre : List ℕ) (q f : Option (List ℕ))
    → FitsQuery q
    → query_end (pre ++ (query_text q ++ fragment_text f)) (length pre)
      ≡ length (pre ++ query_text q)
unfolding query_end query_text
query_end-print pre none f fits = rw (query_end_none pre f) (ap length (sym (append-nil pre)))
query_end-print pre (some q) f fits =
    let t = b'?' ∷ (q ++ fragment_text f) in
    let c0 : char_at (pre ++ t) (length pre) ≡ b'?' = unfold char_at in char_at_here pre t in
    let n : (length pre == length (pre ++ t)) ≡ false = ground (arith, length-append pre t) in
    rw (c0, n)
      (find_here pre (is_char b'#') (b'?' ∷ q) (fragment_text f) (refl, fits) (fragment_Begins f))

fragment_end-print :
    (pre : List ℕ) (f : Option (List ℕ))
    → fragment_end (pre ++ fragment_text f) (length pre) ≡ length (pre ++ fragment_text f)
unfolding fragment_end fragment_text
fragment_end-print pre none = rw (append-nil pre) (ground arith)
fragment_end-print pre (some f) =
    let c0 : char_at (pre ++ b'#' ∷ f) (length pre) ≡ b'#' =
      unfold char_at in char_at_here pre (b'#' ∷ f) in
    rw c0 (ground (arith, length-append pre (b'#' ∷ f)))

pub text_here :
    (s pre t rest : List ℕ) (n : ℕ)
    → s ≡ pre ++ (t ++ rest)
    → n ≡ length (pre ++ t)
    → text s (at_offset (length pre) (n - length pre)) ≡ t
text_here s pre t rest n e h =
    let l : n - length pre ≡ length t = omega (arith, h, length-append pre t) in
    rw (e, l, drop-append pre (t ++ rest)) (take-append t rest)

nil_of_length : (s : List ℕ) → length s ≡ 0 → s ≡ []
nil_of_length [] h = refl
nil_of_length (c ∷ s) h = absurd (omega arith)

text_empty : (s : List ℕ) (o n : ℕ) (t : List ℕ) → n ≡ 0 → length t ≡ 0 → text s (at_offset o n) ≡ t
unfolding take
text_empty s o n t e h = rw (e, nil_of_length t h) refl

-- The components of a URI have the texts of the parts.
pub record HasParts (u : Uri) (x : Parts) : Type 0 where
  pub authority_part : text u.uri u.authority ≡ authority_text x.authority
  pub path_part : text u.uri u.path ≡ x.path
  pub query_part : text u.uri u.query ≡ query_text x.query
  pub fragment_part : text u.uri u.fragment ≡ fragment_text x.fragment

abbrev pub with_parts : Uri → List ℕ → Parts → Uri
with_parts u pre x = record u {
  uri = pre ++ print x;
  ssp = at_offset (length pre) (length (print x));
}

-- Whatever stands before it, a scheme-specific part that is put together from its parts is taken
-- apart into them by parse_generic_ssp: the authority and the query with the characters that set
-- them off.
pub parse_generic_ssp-print :
    (u : Uri) (pre : List ℕ) (x : Parts)
    → IsPrintable x
    → HasParts (parse_generic_ssp (with_parts u pre x)) x
unfolding parse_generic_ssp
parse_generic_ssp-print u pre x (fits, path, query) =
    let at = authority_text x.authority in
    let qt = query_text x.query in
    let ft = fragment_text x.fragment in
    let s = pre ++ print x in
    let s1 : s ≡ (pre ++ at) ++ (x.path ++ (qt ++ ft)) =
      sym (append_assoc pre at (x.path ++ (qt ++ ft))) in
    let s2 : s ≡ ((pre ++ at) ++ x.path) ++ (qt ++ ft) =
      s1 ∙ sym (append_assoc (pre ++ at) x.path (qt ++ ft)) in
    let s3 : s ≡ (((pre ++ at) ++ x.path) ++ qt) ++ ft =
      s2 ∙ sym (append_assoc ((pre ++ at) ++ x.path) qt ft) in
    let a : authority_end s (at_offset (length pre) (length (print x))) ≡ length (pre ++ at) =
      authority_end-print pre x.authority x.path x.query x.fragment fits in
    let p : path_end s (length (pre ++ at)) ≡ length ((pre ++ at) ++ x.path) =
      ap (λ t. path_end t (length (pre ++ at))) s1
      ∙ path_end-print (pre ++ at) x.path x.query x.fragment path in
    let q : query_end s (length ((pre ++ at) ++ x.path)) ≡ length (((pre ++ at) ++ x.path) ++ qt) =
      ap (λ t. query_end t (length ((pre ++ at) ++ x.path))) s2
      ∙ query_end-print ((pre ++ at) ++ x.path) x.query x.fragment query in
    let f : fragment_end s (length (((pre ++ at) ++ x.path) ++ qt))
        ≡ length ((((pre ++ at) ++ x.path) ++ qt) ++ ft) =
      ap (λ t. fragment_end t (length (((pre ++ at) ++ x.path) ++ qt))) s3
      ∙ fragment_end-print (((pre ++ at) ++ x.path) ++ qt) x.fragment in
    elim (Bool-cases (length (print x) == 0)) [
      | inl z ↦
          let n = (==_iff (length (print x)) 0).0 z in
          let la = length-append at (x.path ++ (qt ++ ft)) in
          let lp = length-append x.path (qt ++ ft) in
          let lq = length-append qt ft in
          rw z (record {
            authority_part =
                text_empty s (length pre) (length (print x)) at n (omega (arith, n, la));
            path_part =
                text_empty s (length pre) (length (print x)) x.path n (omega (arith, n, la, lp));
            query_part =
                text_empty s (length pre) (length (print x)) qt n (omega (arith, n, la, lp, lq));
            fragment_part =
                text_empty s (length pre) (length (print x)) ft n (omega (arith, n, la, lp, lq));
          })
      | inr z ↦
          rw (z, a, p, q, f)
            (record {
              authority_part =
                  text_here s pre at (x.path ++ (qt ++ ft)) (length (pre ++ at)) refl refl;
              path_part = text_here s (pre ++ at) x.path (qt ++ ft) _ s1 refl;
              query_part = text_here s ((pre ++ at) ++ x.path) qt ft _ s2 refl;
              fragment_part =
                  text_here s (((pre ++ at) ++ x.path) ++ qt) ft [] _
                    (s3 ∙ ap (λ t. (((pre ++ at) ++ x.path) ++ qt) ++ t) (sym (append-nil ft)))
                    refl;
            })
    ]
