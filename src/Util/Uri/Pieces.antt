-- ===== src/Util/Uri/Pieces.antt =====
-- util/URI.cc: the texts that the loops over a component accept are those put together from allowed
-- characters and percent-encoded ones, and decoding keeps to them.
use oasys.Base.{
  ℕ, ◌≡◌, ◌≢◌, ◌↔◌, refl, ap, ◌∙◌, sym, Bool, true, false, inl, inr, List, [], ◌∷◌, arith,
  Bool-cases, ◌==◌,
}
use oasys.Util.Uri.Types.{ParseErr, parse_ok}
use oasys.Util.Uri.Chars.{is_hexdig}
use oasys.Util.Uri.Percent.{no_percent, check_text}

pub data Piece : Type 0 where
  plain : ℕ → Piece
  percent : ℕ → ℕ → Piece

unfoldable pub print : List Piece → List ℕ
print [] = []
print (plain c ∷ ps) = c ∷ print ps
print (percent a b ∷ ps) = b'%' ∷ a ∷ b ∷ print ps

abbrev pub IsPiece : (ℕ → Bool) → Piece → Type 0
IsPiece ok (plain c) = ok c ≡ true
IsPiece ok (percent a b) = (is_hexdig a ≡ true) × (is_hexdig b ≡ true)

abbrev pub ArePieces : (ℕ → Bool) → List Piece → Type 0
ArePieces ok [] = Unit {0}
ArePieces ok (p ∷ ps) = IsPiece ok p × ArePieces ok ps

-- The texts put together from pieces.
abbrev pub Spelled : (ℕ → Bool) → List ℕ → Type 0
Spelled ok s = (ps : List Piece) × ArePieces ok ps × (print ps ≡ s)

module _ (ok : ℕ → Bool) (no : ok b'%' ≡ false) where
  not_percent : (c : ℕ) → ok c ≡ true → (c == b'%') ≡ false
  not_percent c h = ground (arith, no, h)

  pub check_text-print :
      (bad : ParseErr) (ps : List Piece)
      → ArePieces ok ps
      → check_text ok bad no_percent (print ps) ≡ parse_ok
  unfolding check_text print
  check_text-print bad [] h = refl
  check_text-print bad (plain c ∷ ps) (h, hs) = rw h (check_text-print bad ps hs)
  check_text-print bad (percent a b ∷ ps) ((ha, hb), hs) =
      rw (no, ha, hb) (check_text-print bad ps hs)

  -- The loop goes on behind an allowed character, or behind two digits.
  plain_first : (c : ℕ) (cs : List ℕ) → ok c ≡ true → Spelled ok cs → Spelled ok (c ∷ cs)
  unfolding print
  plain_first c cs h (ps, hs, e) = (plain c ∷ ps, (h, hs), ap (◌∷◌ c) e)

  percent_first :
      (c a b : ℕ) (cs : List ℕ)
      → c ≡ b'%'
      → is_hexdig a ≡ true
      → is_hexdig b ≡ true
      → Spelled ok cs
      → Spelled ok (c ∷ a ∷ b ∷ cs)
  unfolding print
  percent_first c a b cs e ha hb (ps, hs, f) = (percent a b ∷ ps, ((ha, hb), hs), rw (e, f) refl)

  pub pieces_of :
      (bad : ParseErr)
      → bad ≢ parse_ok
      → (s : List ℕ) → check_text ok bad no_percent s ≡ parse_ok
      → Spelled ok s
  unfolding check_text print
  pieces_of bad nb [] h = ([], tt, refl)
  pieces_of bad nb (c ∷ []) h = elim (Bool-cases (ok c)) [
    | inl e ↦ plain_first c [] e ([], tt, refl)
    | inr e ↦ absurd (ground (arith, e, h, nb))
  ]
  pieces_of bad nb (c ∷ a ∷ []) h = elim (Bool-cases (ok c)) [
    | inl e ↦ plain_first c (a ∷ []) e (pieces_of bad nb (a ∷ []) (rw e at h))
    | inr e ↦ absurd (ground (arith, e, h, nb))
  ]
  pieces_of bad nb (c ∷ a ∷ b ∷ cs) h = elim (Bool-cases (ok c)) [
    | inl e ↦ plain_first c (a ∷ b ∷ cs) e (pieces_of bad nb (a ∷ b ∷ cs) (rw e at h))
    | inr e ↦
        let (hc, ha, hb, hs) : (c ≡ b'%')
            × (is_hexdig a ≡ true)
            × (is_hexdig b ≡ true)
            × (check_text ok bad no_percent cs ≡ parse_ok) =
          (
            ground (arith, e, h, nb),
            ground (arith, e, h, nb),
            ground (arith, e, h, nb),
            ground (arith, e, h, nb),
          ) in
        percent_first c a b cs hc ha hb (pieces_of bad nb cs hs)
  ]

  -- Where an allowed character is never a '%', the loop over the text of a component accepts exactly
  -- the texts that are put together from allowed characters and from '%' with two hexadecimal digits.
  pub check_text-Spelled :
      (bad : ParseErr)
      → bad ≢ parse_ok
      → (s : List ℕ) → (check_text ok bad no_percent s ≡ parse_ok) ↔ Spelled ok s
  check_text-Spelled bad nb s = (
    pieces_of bad nb s,
    λ (ps, hs, e). ap (check_text ok bad no_percent) (sym e) ∙ check_text-print bad ps hs,
  )
