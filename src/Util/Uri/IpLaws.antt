-- ===== src/Util/Uri/IpLaws.antt =====
-- util/URI.cc: the loop over the pieces of an IPv6 address ends.
use oasys.Base.{
  ℕ, zero, suc, ◌+◌, ◌<◌, ◌≢◌, Bool, true, false, not, ◌&&◌, ◌||◌, inl, inr, List, length, take,
  drop, arith, Bool-cases, ◌==◌, leb, if◌then◌else◌, length-drop,
}
use oasys.Util.Uri.Types.{prefix, char_at}
use oasys.Util.Uri.IpLiteral.{
  Scan, scan_stuck, scan_bad, scan_end, scan_dot, not_hexdig, scan_pieces,
}

abbrev IsDone : Scan → Type 0
IsDone r = r ≢ scan_stuck

if-IsDone : (b : Bool) (r q : Scan) → IsDone r → IsDone q → IsDone (if b then r else q)
if-IsDone true r q x y = x
if-IsDone false r q x y = y

bad-IsDone : IsDone scan_bad
bad-IsDone e = absurd (ground (arith, e))

end-IsDone : (n : ℕ) (d : Bool) → IsDone (scan_end n d)
end-IsDone n d e = absurd (ground (arith, e))

dot-IsDone : (n : ℕ) (d : Bool) (s : List ℕ) → IsDone (scan_dot n d s)
dot-IsDone n d s e = absurd (ground (arith, e))

-- Each turn of the loop over the pieces of an IPv6 address reads a character or ends the loop, with
-- whatever it has counted before: one turn more than there are characters is enough.
pub scan_pieces-ends :
    (fuel n : ℕ) (double prev : Bool) (s : List ℕ)
    → length s < fuel
    → scan_pieces fuel n double prev s ≢ scan_stuck
unfolding scan_pieces
scan_pieces-ends zero n double prev s h = absurd (omega arith)
scan_pieces-ends (suc fuel) n double prev s h =
    let num_hexdig = prefix not_hexdig (take 4 s) in
    let t = drop num_hexdig s in
    let is_empty = num_hexdig == 0 in
    let is_first = is_empty && n == 0 in
    let skip : ℕ = if is_first then 2 else 1 in
    let lt = length-drop num_hexdig s in
    let ld = length-drop skip t in
    elim (Bool-cases (length t == 0)) [
      | inl z ↦ rw z (
          if-IsDone is_empty _ _ (if-IsDone prev _ _ (end-IsDone n double) bad-IsDone)
            (end-IsDone (n + 1) double))
      | inr z ↦
          let less : length (drop skip t) < fuel = ground (arith, z, h, lt, ld) in
          let more =
            scan_pieces-ends fuel (n + 1) (double || is_empty) is_empty (drop skip t) less in
          rw z (
            if-IsDone (char_at t 0 == b':') _ _
              (if-IsDone (is_first && not (leb 2 (length t) && char_at t 1 == b':')) _ _ bad-IsDone
                (if-IsDone (is_empty && double) _ _ bad-IsDone more))
              (if-IsDone (char_at t 0 == b'.') _ _
                (if-IsDone is_empty _ _ bad-IsDone (dot-IsDone n double s)) bad-IsDone))
    ]
