-- ===== src/Util/Uri/QueryLaws.antt =====
-- util/URI.cc: query_value finds the values that a query was put together from.
use oasys.Base.{
  ℕ, zero, suc, ◌+◌, ◌-◌, ◌<◌, ◌≤◌, ◌≡◌, refl, ap, ◌∙◌, sym, subst, true, false, ◌⊎◌, inl, inr,
  List, [], ◌∷◌, ◌++◌, some, length, arith, Bool-cases, ◌==◌, leb, ltb, if◌then◌else◌,
  length-append, drop-append,
}
use mathlib.Core.List.{append_assoc}
use oasys.Util.Uri.Types.{parse_ok, at_offset, Uri, text, find_or_end, char_at, is_char}
use oasys.Util.Uri.Search.{Lacks, Begins}
use oasys.Util.Uri.Compose.{char_at_here, find_here, text_here}
use oasys.Util.Uri.Query.{same, value_stop, find_value, query_value}
use oasys.Util.Uri.QueryText.{
  print_params, lookup, ArePrintable, params_Begins, Lacks-append, no_semicolon, prefix-ge,
  print_params-ge, print_params-count,
}

find_value_end :
    (fuel end : ℕ) (s param : List ℕ) (pos : ℕ)
    → 0 < fuel
    → end ≤ pos
    → find_value fuel end s param pos ≡ some []
unfolding find_value
find_value_end zero end s param pos h e = absurd (omega arith)
find_value_end (suc fuel) end s param pos h e =
    let n : ltb pos end ≡ false = ground arith in rw n refl

find_value_step :
    (fuel end : ℕ) (s param name value : List ℕ) (pos eq stop : ℕ)
    → pos < end
    → find_or_end (is_char b'=') s (pos + 1) ≡ eq
    → eq < length s
    → eq ≤ end
    → find_or_end value_stop s (eq + 1) ≡ stop
    → text s (at_offset (pos + 1) (eq - (pos + 1))) ≡ name
    → text s (at_offset (eq + 1) (stop - (eq + 1))) ≡ value
    → find_value (suc fuel) end s param pos ≡ (
        if same name param
        then some value
        else find_value fuel end s param (find_or_end (is_char b';') s (pos + 1)))
unfolding find_value
find_value_step fuel end s param name value pos eq stop h e h2 h3 st n v =
    let b1 : ltb pos end ≡ true = ground arith in
    let b2 : leb (length s) eq ≡ false = ground arith in
    let b3 : ltb end eq ≡ false = ground arith in
    elim (Bool-cases (same name param)) [
      | inl y ↦ rw (b1, e, b2, b3, st, n, v, y) refl
      | inr y ↦ rw (b1, e, b2, b3, st, n, v, y) refl
    ]

-- Behind a parameter the next one starts at a semicolon; behind the last there is none before the end.
semicolon :
    (ps : List (List ℕ × List ℕ)) (pre nv post s : List ℕ)
    → s ≡ pre ++ (nv ++ print_params b';' ps post)
    → Lacks (is_char b';') nv
    → ((ps ≡ []) × (length pre + length nv ≤ find_or_end (is_char b';') s (length pre)))
      ⊎ (find_or_end (is_char b';') s (length pre) ≡ length pre + length nv)
unfolding print_params
semicolon [] pre nv post s e h =
    inl (
      refl,
      rw (e, drop-append pre (nv ++ post)) (omega (arith, prefix-ge (is_char b';') nv post h)),
    )
semicolon ((name, value) ∷ ps) pre nv post s e h = inr (
    rw e (
      find_here pre (is_char b';') nv (print_params b';' ((name, value) ∷ ps) post) h refl
      ∙ length-append pre nv))

-- From the character before a name on, the loop finds the value of the first parameter of the name,
-- where the text from there on is put together from parameters.
find_value-print :
    (ps : List (List ℕ × List ℕ)) (pre post s param : List ℕ) (c fuel end : ℕ)
    → s ≡ pre ++ print_params c ps post
    → end + length post ≡ length s
    → ArePrintable ps
    → Begins (is_char b'#') post
    → length ps < fuel
    → find_value fuel end s param (length pre) ≡ some (lookup param ps)
unfolding lookup print_params
find_value-print [] pre post s param c fuel end e h ok b f =
    find_value_end fuel end s param (length pre) (omega arith)
      (omega (arith, h, ap length e, length-append pre post))
find_value-print (p ∷ ps) pre post s param c zero end e h ok b f = absurd (omega arith)
find_value-print ((name, value) ∷ ps) pre post s param c (suc fuel) end e h (n1, n2, v1, oks) b f =
    let rest = print_params b';' ps post in
    let pre1 = pre ++ (c ∷ []) in
    let pre2 = (pre1 ++ name) ++ (b'=' ∷ []) in
    let pre3 = pre2 ++ value in
    let nv = name ++ (b'=' ∷ value) in
    let s1 : s ≡ pre1 ++ (name ++ (b'=' ∷ (value ++ rest))) =
      e ∙ sym (append_assoc pre (c ∷ []) (name ++ (b'=' ∷ (value ++ rest)))) in
    let s2 : s ≡ pre2 ++ (value ++ rest) =
      s1
      ∙ (sym (append_assoc pre1 name (b'=' ∷ (value ++ rest)))
          ∙ sym (append_assoc (pre1 ++ name) (b'=' ∷ []) (value ++ rest))) in
    let s3 : s ≡ pre3 ++ rest = s2 ∙ sym (append_assoc pre2 value rest) in
    let s4 : s ≡ pre1 ++ (nv ++ rest) =
      s1 ∙ ap (λ x. pre1 ++ x) (sym (append_assoc name (b'=' ∷ value) rest)) in
    let l1 : length pre1 ≡ length pre + 1 = length-append pre (c ∷ []) in
    let l2 : length pre2 ≡ length (pre1 ++ name) + 1 = length-append (pre1 ++ name) (b'=' ∷ []) in
    let l3 : length pre3 ≡ length pre2 + length value = length-append pre2 value in
    let l4 : length s ≡ length pre3 + length rest = ap length s3 ∙ length-append pre3 rest in
    let l5 : length (pre1 ++ name) ≡ length pre1 + length name = length-append pre1 name in
    let l6 : length nv ≡ length name + suc (length value) = length-append name (b'=' ∷ value) in
    let ge = print_params-ge b';' ps post in
    let eq : find_or_end (is_char b'=') s (length pre + 1) ≡ length (pre1 ++ name) =
      rw (s1, ← l1) (find_here pre1 (is_char b'=') name (b'=' ∷ (value ++ rest)) n1 refl) in
    let stop : find_or_end value_stop s (length (pre1 ++ name) + 1) ≡ length pre3 =
      rw (s2, ← l2) (find_here pre2 value_stop value rest v1 (params_Begins ps post b)) in
    let is_name : text s (at_offset (length pre + 1) (length (pre1 ++ name) - (length pre + 1)))
        ≡ name =
      rw (← l1) (text_here s pre1 name (b'=' ∷ (value ++ rest)) (length (pre1 ++ name)) s1 refl) in
    let is_value : text s
          (at_offset (length (pre1 ++ name) + 1) (length pre3 - (length (pre1 ++ name) + 1)))
        ≡ value =
      rw (← l2) (text_here s pre2 value rest (length pre3) s2 refl) in
    let lacks = Lacks-append (is_char b';') name (b'=' ∷ value) n2 (refl, no_semicolon value v1) in
    let step =
      find_value_step fuel end s param name value (length pre) (length (pre1 ++ name)) (length pre3)
        (omega (arith, h, ge, l1, l2, l3, l4, l5)) eq (omega (arith, l2, l3, l4))
        (omega (arith, h, ge, l2, l3, l4)) stop is_name is_value in
    elim (Bool-cases (same name param)) [
      | inl y ↦ step ∙ rw y refl
      | inr y ↦
          let go = find_value fuel end s param in
          step
          ∙ rw y (elim (semicolon ps pre1 nv post s s4 lacks) [
            | inr at ↦
                ap go
                  (ap (find_or_end (is_char b';') s) (sym l1) ∙ omega (arith, at, l2, l3, l5, l6))
                ∙ find_value-print ps pre3 post s param b';' fuel end s3 h oks b (omega arith)
            | inl (none_left, far) ↦
                let lr : length rest ≡ length post =
                  ap (λ x. length (print_params b';' x post)) none_left in
                let far' =
                  subst (λ n. length pre1 + length nv ≤ find_or_end (is_char b';') s n) l1 far in
                find_value_end fuel end s param (find_or_end (is_char b';') s (length pre + 1))
                  (omega arith) (omega (arith, far', l1, l2, l3, l4, l5, l6, lr, h))
                ∙ ap (λ x. some (lookup param x)) (sym none_left)
          ])
    ]

-- A query that is put together from parameters, each with its name, a '=' and its value, the first
-- behind a '?' and the others behind a ';': query_value gives the value of the first one of the name
-- that is asked for, and the empty text where there is none. No name has a '=' or a ';', no value a
-- ';' or a '#', and a fragment may follow.
pub query_value-print :
    (u : Uri) (pre post param : List ℕ) (ps : List (List ℕ × List ℕ))
    → u.parse_err ≡ parse_ok
    → u.uri ≡ pre ++ print_params b'?' ps post
    → u.query.offset ≡ length pre
    → length pre + u.query.length + length post ≡ length u.uri
    → ArePrintable ps
    → Begins (is_char b'#') post
    → query_value param u ≡ some (lookup param ps)
unfolding query_value lookup
query_value-print u pre post param [] ok e o h oks b =
    let l : length u.uri ≡ length pre + length post =
      ap length e ∙ (unfold print_params in length-append pre post) in
    let z : u.query.length ≡ 0 = omega (arith, h, l) in rw (ok, z) refl
query_value-print u pre post param ((name, value) ∷ ps) ok e o h oks b =
    let all = (name, value) ∷ ps in
    let s = print_params b'?' all post in
    let l : length u.uri ≡ length pre + length s = ap length e ∙ length-append pre s in
    let c = print_params-count b'?' all post in
    let z : (u.query.length == 0) ≡ false = ground (arith, h, l, c) in
    let mark : char_at u.uri u.query.offset ≡ b'?' =
      rw (o, e) (char_at_here pre s ∙ unfold print_params char_at in refl) in
    rw (ok, z, mark, o)
      (find_value-print all pre post u.uri param b'?' (suc (length u.uri))
        (length pre + u.query.length) e h oks b (omega (arith, l, c)))
