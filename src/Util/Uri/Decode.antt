-- ===== src/Util/Uri/Decode.antt =====
-- util/URI.cc: what the loops that decode a component make of a text that has been validated.
use oasys.Base.{
  ℕ, ◌≡◌, ◌≢◌, refl, ap, ◌∙◌, sym, Bool, true, false, inl, inr, List, [], ◌∷◌, some, arith,
  Bool-cases, ◌==◌, ◌||◌, if◌then◌else◌,
}
use oasys.Serialize.KeySerialize.Strtoul.{is_space}
use oasys.Util.Uri.Types.{ParseErr, parse_ok}
use oasys.Util.Uri.Chars.{is_digit, is_lower, is_hexdig, to_upper}
use oasys.Util.Uri.Percent.{
  no_percent, check_text, hex_digit, hex_value, scan_hex, decode_char, decode_scanned, decode_text,
}
use oasys.Util.Uri.Pieces.{
  Piece, plain, percent, print, IsPiece, ArePieces, check_text-print, pieces_of,
}

unfoldable pub decode_piece : (ℕ → Bool) → Piece → Piece
decode_piece dec (plain c) = plain c
decode_piece dec (percent a b) =
    if dec (hex_value a b) then plain (hex_value a b) else percent (to_upper a) (to_upper b)

unfoldable pub decode_pieces : (ℕ → Bool) → List Piece → List Piece
decode_pieces dec [] = []
decode_pieces dec (p ∷ ps) = decode_piece dec p ∷ decode_pieces dec ps

abbrev pub every_char : ℕ → Bool
every_char c = true

upper_hexdig : (a : ℕ) → is_hexdig a ≡ true → is_hexdig (to_upper a) ≡ true
unfolding is_hexdig is_digit to_upper is_lower
upper_hexdig a h = ground arith

upper_twice : (a : ℕ) → to_upper (to_upper a) ≡ to_upper a
unfolding to_upper is_lower
upper_twice a = ground arith

upper_digit : (a : ℕ) → is_hexdig a ≡ true → hex_digit (to_upper a) ≡ hex_digit a
unfolding is_hexdig is_digit to_upper is_lower hex_digit
upper_digit a h = ground arith

upper_value :
    (a b : ℕ)
    → is_hexdig a ≡ true
    → is_hexdig b ≡ true
    → hex_value (to_upper a) (to_upper b) ≡ hex_value a b
upper_value a b ha hb = rw (upper_digit a ha, upper_digit b hb) refl

-- A digit is none of the other characters that scan_hex looks for.
hexdig_only :
    (a : ℕ)
    → is_hexdig a ≡ true
    → ((is_space a || a == b'+') ≡ false)
      × ((a == b'-') ≡ false)
      × ((a == b'x' || a == b'X') ≡ false)
unfolding is_hexdig is_digit is_space
hexdig_only a h = ground arith

scan_hex_digits :
    (a b : ℕ) → is_hexdig a ≡ true → is_hexdig b ≡ true → scan_hex a b ≡ some (hex_value a b)
unfolding scan_hex
scan_hex_digits a b ha hb =
    let (space, minus, x) = hexdig_only a ha in
    let (space', minus', prefix) = hexdig_only b hb in ground (arith, space, minus, prefix, ha, hb)

-- What decoding gives of a text: `t`, which passes the check, which decoding leaves as it is, and which
-- stands for the same characters.
abbrev pub IsDecoded : (ℕ → Bool) → (ℕ → Bool) → ParseErr → List ℕ → List ℕ → Type 0
IsDecoded ok dec bad s t =
    (decode_text dec no_percent s ≡ some t)
    × (check_text ok bad no_percent t ≡ parse_ok)
    × (decode_text dec no_percent t ≡ some t)
    × (decode_text every_char no_percent t ≡ decode_text every_char no_percent s)

-- The characters that the check allows, which have no '%', and those that decoding gives.
module _ (ok dec : ℕ → Bool) (no : ok b'%' ≡ false)
    (le : (c : ℕ) → dec c ≡ true → ok c ≡ true) where
  not_percent : (c : ℕ) → ok c ≡ true → (c == b'%') ≡ false
  not_percent c h = ground (arith, no, h)

  decode_piece-IsPiece : (p : Piece) → IsPiece ok p → IsPiece ok (decode_piece dec p)
  unfolding decode_piece
  decode_piece-IsPiece (plain c) h = h
  decode_piece-IsPiece (percent a b) (ha, hb) = elim (Bool-cases (dec (hex_value a b))) [
    | inl e ↦ rw e (le (hex_value a b) e)
    | inr e ↦ rw e (upper_hexdig a ha, upper_hexdig b hb)
  ]

  decode_piece_twice :
      (p : Piece) → IsPiece ok p → decode_piece dec (decode_piece dec p) ≡ decode_piece dec p
  unfolding decode_piece
  decode_piece_twice (plain c) h = refl
  decode_piece_twice (percent a b) (ha, hb) = elim (Bool-cases (dec (hex_value a b))) [
    | inl e ↦ rw e refl
    | inr e ↦ rw (e, upper_value a b ha hb, e, upper_twice a, upper_twice b) refl
  ]

  decode_pieces-ArePieces :
      (ps : List Piece) → ArePieces ok ps → ArePieces ok (decode_pieces dec ps)
  unfolding decode_pieces
  decode_pieces-ArePieces [] h = tt
  decode_pieces-ArePieces (p ∷ ps) (h, hs) =
      (decode_piece-IsPiece p h, decode_pieces-ArePieces ps hs)

  decode_pieces_twice :
      (ps : List Piece)
      → ArePieces ok ps
      → decode_pieces dec (decode_pieces dec ps) ≡ decode_pieces dec ps
  unfolding decode_pieces
  decode_pieces_twice [] h = refl
  decode_pieces_twice (p ∷ ps) (h, hs) = rw (decode_piece_twice p h, decode_pieces_twice ps hs) refl

  -- Decoding every character gives the same before and after.
  decode_piece_every :
      (p : Piece)
      → IsPiece ok p
      → decode_piece every_char (decode_piece dec p) ≡ decode_piece every_char p
  unfolding decode_piece
  decode_piece_every (plain c) h = refl
  decode_piece_every (percent a b) (ha, hb) = elim (Bool-cases (dec (hex_value a b))) [
    | inl e ↦ rw e refl
    | inr e ↦ rw (e, upper_value a b ha hb) refl
  ]

  decode_pieces_every :
      (ps : List Piece)
      → ArePieces ok ps
      → decode_pieces every_char (decode_pieces dec ps) ≡ decode_pieces every_char ps
  unfolding decode_pieces
  decode_pieces_every [] h = refl
  decode_pieces_every (p ∷ ps) (h, hs) = rw (decode_piece_every p h, decode_pieces_every ps hs) refl

  pub decode_text-print :
      (d : ℕ → Bool) (ps : List Piece)
      → ArePieces ok ps
      → decode_text d no_percent (print ps) ≡ some (print (decode_pieces d ps))
  unfolding decode_text print decode_pieces decode_char decode_piece decode_scanned
  decode_text-print d [] h = refl
  decode_text-print d (plain c ∷ ps) (h, hs) = rw (not_percent c h, decode_text-print d ps hs) refl
  decode_text-print d (percent a b ∷ ps) ((ha, hb), hs) = elim (Bool-cases (d (hex_value a b))) [
    | inl e ↦ rw (scan_hex_digits a b ha hb, decode_text-print d ps hs, e) refl
    | inr e ↦ rw (scan_hex_digits a b ha hb, decode_text-print d ps hs, e) refl
  ]

  -- A text that passes its component's check, which allows no bare '%', is decoded without a failed
  -- assertion, where only characters are decoded that the check allows. The result passes the check
  -- again, a second decoding does not change it, and decoding all of its characters gives what
  -- decoding all of the first text's does.
  pub decode_text-IsDecoded :
      (bad : ParseErr)
      → bad ≢ parse_ok
      → (s : List ℕ) → check_text ok bad no_percent s ≡ parse_ok
      → (t : List ℕ) × IsDecoded ok dec bad s t
  decode_text-IsDecoded bad nb s h =
      let (ps, hs, e) = pieces_of ok no bad nb s h in
      let qs = decode_pieces dec ps in
      let hq = decode_pieces-ArePieces ps hs in
      (
        print qs,
        (
          ap (decode_text dec no_percent) (sym e) ∙ decode_text-print dec ps hs,
          check_text-print ok no bad qs hq,
          decode_text-print dec qs hq ∙ ap (λ xs. some (print xs)) (decode_pieces_twice ps hs),
          decode_text-print every_char qs hq
              ∙ (ap (λ xs. some (print xs)) (decode_pieces_every ps hs)
                  ∙ (sym (decode_text-print every_char ps hs)
                      ∙ ap (decode_text every_char no_percent) e)),
        ),
      )
