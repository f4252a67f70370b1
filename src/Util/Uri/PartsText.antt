-- ===== src/Util/Uri/PartsText.antt =====
-- util/URI.cc: the texts that parse_generic_ssp takes apart.
use oasys.Base.{
  ℕ, ◌≡◌, refl, Bool, true, false, not, ◌&&◌, List, [], ◌∷◌, ◌++◌, length, arith, ◌==◌, leb, Option,
  none, some,
}
use oasys.Util.Uri.Types.{char_at, is_char}
use oasys.Util.Uri.Search.{Lacks, Begins}
use oasys.Util.Uri.Parse.{authority_stop, path_stop}

-- The parts of a scheme-specific part, without the characters that set them off.
pub record Parts : Type 0 where
  pub authority : Option (List ℕ)
  pub path : List ℕ
  pub query : Option (List ℕ)
  pub fragment : Option (List ℕ)

unfoldable pub authority_text : Option (List ℕ) → List ℕ
authority_text none = []
authority_text (some a) = b'/' ∷ b'/' ∷ a

unfoldable pub query_text : Option (List ℕ) → List ℕ
query_text none = []
query_text (some q) = b'?' ∷ q

unfoldable pub fragment_text : Option (List ℕ) → List ℕ
fragment_text none = []
fragment_text (some f) = b'#' ∷ f

abbrev pub print : Parts → List ℕ
print x = authority_text x.authority ++ (x.path ++ (query_text x.query ++ fragment_text x.fragment))

-- A path that does not look like an authority.
unfoldable pub is_rootless : List ℕ → Bool
is_rootless (c ∷ d ∷ cs) = not (c == b'/' && d == b'/')
is_rootless s = true

abbrev pub FitsPath : Option (List ℕ) → List ℕ → Type 0
FitsPath none path = is_rootless path ≡ true
FitsPath (some a) path = Lacks authority_stop a × Begins (is_char b'/') path

abbrev pub FitsQuery : Option (List ℕ) → Type 0
FitsQuery none = Unit
FitsQuery (some q) = Lacks (is_char b'#') q

-- No part has a character that would end it, and a path behind an authority starts with a slash.
abbrev pub IsPrintable : Parts → Type 0
IsPrintable x = FitsPath x.authority x.path × Lacks path_stop x.path × FitsQuery x.query

pub tail_Begins : (q f : Option (List ℕ)) → Begins path_stop (query_text q ++ fragment_text f)
unfolding query_text fragment_text path_stop
tail_Begins none none = tt
tail_Begins none (some f) = refl
tail_Begins (some q) f = refl

pub fragment_Begins : (f : Option (List ℕ)) → Begins (is_char b'#') (fragment_text f)
unfolding fragment_text
fragment_Begins none = tt
fragment_Begins (some f) = refl

-- A first character of the rest stops the authority.
pub after_authority :
    (path : List ℕ) (q f : Option (List ℕ))
    → Begins (is_char b'/') path
    → Begins authority_stop (path ++ (query_text q ++ fragment_text f))
unfolding query_text fragment_text authority_stop
after_authority [] none none b = tt
after_authority [] none (some f) b = refl
after_authority [] (some q) f b = refl
after_authority (c ∷ path) q f b = ground (arith, b)

abbrev pub two_slashes : List ℕ → Bool
two_slashes t = leb 2 (length t) && char_at t 0 == b'/' && char_at t 1 == b'/'

pub rootless_slashes :
    (path : List ℕ) (q f : Option (List ℕ))
    → is_rootless path ≡ true
    → two_slashes (path ++ (query_text q ++ fragment_text f)) ≡ false
unfolding is_rootless query_text fragment_text char_at
rootless_slashes [] none none h = refl
rootless_slashes [] none (some f) h = ground arith
rootless_slashes [] (some q) f h = ground arith
rootless_slashes (c ∷ []) none none h = refl
rootless_slashes (c ∷ []) none (some f) h = ground arith
rootless_slashes (c ∷ []) (some q) f h = ground arith
rootless_slashes (c ∷ d ∷ path) q f h = ground (arith, h)
