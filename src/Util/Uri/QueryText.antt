-- ===== src/Util/Uri/QueryText.antt =====
-- util/URI.cc: the text of a query, as URI::query_value reads it.
use oasys.Base.{
  ℕ, ◌+◌, ◌≤◌, refl, Bool, List, [], ◌∷◌, ◌++◌, length, arith, if◌then◌else◌, length-append,
}
use oasys.Util.Uri.Types.{prefix, is_char}
use oasys.Util.Uri.Search.{Lacks, Begins}
use oasys.Util.Uri.Query.{same, value_stop}

-- A parameter's name and its value, behind the character that sets it off, with what follows.
unfoldable pub print_params : ℕ → List (List ℕ × List ℕ) → List ℕ → List ℕ
print_params c [] post = post
print_params c ((name, value) ∷ ps) post =
    c ∷ (name ++ (b'=' ∷ (value ++ print_params b';' ps post)))

-- The value of the first parameter of the name.
unfoldable pub lookup : List ℕ → List (List ℕ × List ℕ) → List ℕ
lookup param [] = []
lookup param ((name, value) ∷ ps) =
    let rest = lookup param ps in if same name param then value else rest

abbrev pub ArePrintable : List (List ℕ × List ℕ) → Type 0
ArePrintable [] = Unit {0}
ArePrintable ((name, value) ∷ ps) =
    Lacks (is_char b'=') name × Lacks (is_char b';') name × Lacks value_stop value × ArePrintable ps

pub params_Begins :
    (ps : List (List ℕ × List ℕ)) (post : List ℕ)
    → Begins (is_char b'#') post
    → Begins value_stop (print_params b';' ps post)
unfolding print_params value_stop
params_Begins [] [] h = tt
params_Begins [] (c ∷ post) h = ground (arith, h)
params_Begins (p ∷ ps) post h = refl

pub Lacks-append : (p : ℕ → Bool) (s t : List ℕ) → Lacks p s → Lacks p t → Lacks p (s ++ t)
Lacks-append p [] t h k = k
Lacks-append p (c ∷ s) t (h, hs) k = (h, Lacks-append p s t hs k)

pub no_semicolon : (s : List ℕ) → Lacks value_stop s → Lacks (is_char b';') s
unfolding value_stop
no_semicolon [] h = tt
no_semicolon (c ∷ s) (h, hs) = (ground (arith, h), no_semicolon s hs)

pub prefix-ge : (p : ℕ → Bool) (s t : List ℕ) → Lacks p s → length s ≤ prefix p (s ++ t)
unfolding prefix
prefix-ge p [] t h = omega arith
prefix-ge p (c ∷ s) t (h, hs) = rw h (omega (arith, prefix-ge p s t hs))

pub print_params-ge :
    (c : ℕ) (ps : List (List ℕ × List ℕ)) (post : List ℕ)
    → length post ≤ length (print_params c ps post)
unfolding print_params
print_params-ge c [] post = omega arith
print_params-ge c ((name, value) ∷ ps) post = omega (
  arith,
  print_params-ge b';' ps post,
  length-append name (b'=' ∷ (value ++ print_params b';' ps post)),
  length-append value (print_params b';' ps post),
)

pub print_params-count :
    (c : ℕ) (ps : List (List ℕ × List ℕ)) (post : List ℕ)
    → length ps + length post ≤ length (print_params c ps post)
unfolding print_params
print_params-count c [] post = omega arith
print_params-count c ((name, value) ∷ ps) post = omega (
  arith,
  print_params-count b';' ps post,
  length-append name (b'=' ∷ (value ++ print_params b';' ps post)),
  length-append value (print_params b';' ps post),
)
