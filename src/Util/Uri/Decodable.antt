-- ===== src/Util/Uri/Decodable.antt =====
-- util/URI.cc: the texts that the loops of the decoders get through without a failed assertion.
use oasys.Base.{
  ℕ, ◌≡◌, ◌≢◌, refl, ap, ◌∙◌, sym, Bool, true, false, not, List, [], ◌∷◌, ◌++◌, some, arith, ◌==◌,
}
use oasys.Util.Uri.Types.{ParseErr, parse_ok}
use oasys.Util.Uri.Percent.{no_percent, check_text, decode_text, every}
use oasys.Util.Uri.Pieces.{Piece, plain, percent, print, ArePieces, Spelled, pieces_of}
use oasys.Util.Uri.Decode.{decode_pieces, decode_text-print}

abbrev pub plain_char : ℕ → Bool
plain_char c = not (c == b'%')

-- Every '%' has its two digits.
abbrev pub IsDecodable : List ℕ → Type 0
IsDecodable s = Spelled plain_char s

pub IsDecodable-decode_text :
    (dec : ℕ → Bool) (s : List ℕ)
    → IsDecodable s
    → (t : List ℕ) × (decode_text dec no_percent s ≡ some t)
IsDecodable-decode_text dec s (ps, hs, e) = (
  print (decode_pieces dec ps),
  ap (decode_text dec no_percent) (sym e)
      ∙ decode_text-print plain_char plain_char refl (λ c h. h) dec ps hs,
)

weaken :
    (ok : ℕ → Bool)
    → ok b'%' ≡ false
    → (ps : List Piece) → ArePieces ok ps
    → ArePieces plain_char ps
weaken ok np [] h = tt
weaken ok np (plain c ∷ ps) (h, hs) = (ground (arith, np, h), weaken ok np ps hs)
weaken ok np (percent a b ∷ ps) (h, hs) = (h, weaken ok np ps hs)

-- What a validator's loop accepts.
pub check_text-IsDecodable :
    (ok : ℕ → Bool) (bad : ParseErr) (s : List ℕ)
    → ok b'%' ≡ false
    → bad ≢ parse_ok
    → check_text ok bad no_percent s ≡ parse_ok
    → IsDecodable s
check_text-IsDecodable ok bad s np nb h =
    let (ps, hs, e) = pieces_of ok np bad nb s h in (ps, weaken ok np ps hs, e)

pub IsDecodable-cons :
    (c : ℕ) (s : List ℕ) → (c == b'%') ≡ false → IsDecodable s → IsDecodable (c ∷ s)
unfolding print
IsDecodable-cons c s n (ps, hs, e) = (plain c ∷ ps, (rw n refl, hs), ap (◌∷◌ c) e)

print_snoc : (ps : List Piece) (c : ℕ) → print (ps ++ (plain c ∷ [])) ≡ print ps ++ (c ∷ [])
unfolding print
print_snoc [] c = refl
print_snoc (plain d ∷ ps) c = ap (◌∷◌ d) (print_snoc ps c)
print_snoc (percent a b ∷ ps) c = ap (λ t. b'%' ∷ a ∷ b ∷ t) (print_snoc ps c)

ArePieces-snoc :
    (ps : List Piece) (c : ℕ)
    → (c == b'%') ≡ false
    → ArePieces plain_char ps
    → ArePieces plain_char (ps ++ (plain c ∷ []))
ArePieces-snoc [] c n h = (rw n refl, tt)
ArePieces-snoc (p ∷ ps) c n (h, hs) = (h, ArePieces-snoc ps c n hs)

pub IsDecodable-snoc :
    (s : List ℕ) (c : ℕ) → (c == b'%') ≡ false → IsDecodable s → IsDecodable (s ++ (c ∷ []))
IsDecodable-snoc s c n (ps, hs, e) =
    (ps ++ (plain c ∷ []), ArePieces-snoc ps c n hs, print_snoc ps c ∙ ap (λ t. t ++ (c ∷ [])) e)

pub IsDecodable-nil : IsDecodable []
unfolding print
IsDecodable-nil = ([], tt, refl)

-- A text without a '%', from its front on.
pub every-IsDecodable :
    (p : ℕ → Bool) → p b'%' ≡ false → (s : List ℕ) → every p s ≡ true → IsDecodable s
unfolding every
every-IsDecodable p np [] h = IsDecodable-nil
every-IsDecodable p np (c ∷ s) h =
    IsDecodable-cons c s (ground (arith, np, h)) (every-IsDecodable p np s (ground (arith, h)))
