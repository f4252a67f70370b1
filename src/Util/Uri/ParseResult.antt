-- ===== src/Util/Uri/ParseResult.antt =====
-- util/URI.cc: what parse makes of a text, with all of its steps.
use oasys.Base.{
  ◌++◌, take, drop, take_all, append-take-drop, length-drop, ◌∙◌, ap, ◌≤◌, ◌<◌, ◌^◌, ◌+◌, ◌-◌, ◌≡◌,
  refl, subst, Bool, true, false, not, ◌&&◌, inl, inr, Option, none, some, length, arith,
  Bool-cases, ◌==◌, if◌then◌else◌,
}
use oasys.Util.Uri.Types.{
  text, ParseErr, parse_ok, no_uri, no_sep, bad_scheme, at_offset, Uri, prefix, is_char, is_ok,
}
use oasys.Util.Uri.Search.{prefix-le}
use oasys.Util.Uri.Parse.{cleared, parse_generic_ssp, parse_authority}
use oasys.Util.Uri.Validate.{validate}
use oasys.Util.Uri.Chain.{IsChain-text}
use oasys.Util.Uri.Layout.{IsLaidOut, IsLaidOut-Facts, laid_out}
use oasys.Util.Uri.ParseLayout.{parse_authority-IsLaidOut_generic, parsers_keep}
use oasys.Util.Uri.Normalize.{normalize, finish, parse}
use oasys.Util.Uri.NormalizeLayout.{IsParsed, normalize-IsParsed}

-- The components are laid out, where the parser reports no error.
abbrev IfOk : Option Uri → Type 0
IfOk none = Unit {0}
IfOk (some v) = v.parse_err ≡ parse_ok → IsLaidOut v

of_parsed : (m : Option Uri) → IsParsed m → IfOk m
of_parsed none h = tt
of_parsed (some v) (l, ok, short) = λ e. l

not_ok : (err : ParseErr) → is_ok err ≡ false → (u : Uri) → err ≡ parse_ok → IsLaidOut u
not_ok err h u e = absurd (ground (arith, h, e))

pub ok_of : (err : ParseErr) → is_ok err ≡ true → err ≡ parse_ok
ok_of err h = ground (arith, h)

either_IfOk : (b : Bool) (m n : Option Uri) → IfOk m → IfOk n → IfOk (if b then m else n)
either_IfOk true m n x y = x
either_IfOk false m n x y = y

finish-IfOk :
    (u : Uri) → IsLaidOut u → u.parse_err ≡ parse_ok → length u.uri < 2 ^ 31 → IfOk (finish u)
unfolding finish
finish-IfOk u l ok short = elim (Bool-cases (u.validate && not (is_ok (validate u)))) [
  | inl e ↦ rw e (not_ok (validate u) (ground (arith, e)) (record u { parse_err = validate u }))
  | inr e ↦ rw e (
      either_IfOk u.normalize (normalize u) (some u)
        (of_parsed (normalize u) (normalize-IsParsed u (l, ok, short))) (λ h. l))
]

pub parsed-IsLaidOut :
    (u : Uri) → IsLaidOut u → (err : ParseErr) → IsLaidOut (record u { parse_err = err })
parsed-IsLaidOut u l err = laid_out (record u { parse_err = err }) (IsLaidOut-Facts u l)

parse-IfOk : (u : Uri) → length u.uri < 2 ^ 31 → IfOk (parse u)
unfolding parse
parse-IfOk u short =
    let n = prefix (is_char b':') u.uri in
    let v : Uri = record (cleared u) {
      scheme = at_offset 0 n;
      ssp = at_offset (n + 1) (length u.uri - (n + 1));
    } in
    let r = parse_authority (parse_generic_ssp v) in
    let le = prefix-le (is_char b':') u.uri in
    elim (Bool-cases (length u.uri == 0)) [
      | inl a ↦ rw a (not_ok no_uri refl _)
      | inr a ↦ elim (Bool-cases (n == length u.uri)) [
        | inl b ↦ rw (a, b) (not_ok no_sep refl _)
        | inr b ↦ elim (Bool-cases (n == 0)) [
          | inl c ↦ rw (a, b, c) (not_ok bad_scheme refl _)
          | inr c ↦ elim (Bool-cases (is_ok r.0)) [
            | inr d ↦ rw (a, b, c, d) (not_ok r.0 d _)
            | inl d ↦
                let last : (n + 1) + (length u.uri - (n + 1)) ≡ length u.uri =
                  ground (arith, b, le) in
                let l = parse_authority-IsLaidOut_generic v refl (omega arith) last (ok_of r.0 d) in
                rw (a, b, c, d)
                  (finish-IfOk (record r.1 { parse_err = parse_ok })
                    (parsed-IsLaidOut r.1 l parse_ok) refl
                    (omega (arith, ap length (parsers_keep v).1)))
          ]
        ]
      ]
    ]

-- The texts of the components of a chain, behind what stands before them, make up the text.
laid_out-text :
    (u : Uri)
    → IsLaidOut u
    → take u.ssp.offset u.uri
        ++ (text u.uri u.authority
            ++ (text u.uri u.path ++ (text u.uri u.query ++ text u.uri u.fragment)))
      ≡ u.uri
laid_out-text u l =
    let n : length (drop u.ssp.offset u.uri) ≤ u.ssp.length =
      omega (arith, l.chain.ssp_last, length-drop u.ssp.offset u.uri) in
    ap (λ t. take u.ssp.offset u.uri ++ t)
      (IsChain-text u l.chain ∙ take_all u.ssp.length (drop u.ssp.offset u.uri) n)
    ∙ append-take-drop u.ssp.offset u.uri

pub parse-IsLaidOut :
    (u v : Uri)
    → length u.uri < 2 ^ 31
    → parse u ≡ some v
    → v.parse_err ≡ parse_ok
    → IsLaidOut v
      × (take (v.scheme.length + 1) v.uri
            ++ (text v.uri v.authority
                ++ (text v.uri v.path ++ (text v.uri v.query ++ text v.uri v.fragment)))
          ≡ v.uri)
parse-IsLaidOut u v short e ok =
    let l = subst IfOk e (parse-IfOk u short) ok in (l, rw (← l.ssp_next) (laid_out-text v l))
