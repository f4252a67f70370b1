-- ===== src/Serialize/Unmarshal/Until.antt =====
-- The loop of Unmarshal that looks for a terminator.
use oasys.Base.{
  ℕ, zero, suc, ◌+◌, ◌^◌, ◌<◌, ◌≡◌, refl, sym, ap, ◌∙◌, true, false, List, [], ◌∷◌, ◌++◌, length,
  Option, some, none, Bool-cases, inl, inr, ◌==◌, arith, length-append, if◌then◌else◌,
}
use mathlib.Core.List.{append_assoc, append-nil}
use oasys.Serialize.Buffer.{next_slice, read}
use oasys.Serialize.Field.{scan}
use oasys.Serialize.Unmarshal.{
  untouched, carried, first_byte, started, until_round, unmarshal_until,
}
use oasys.Serialize.Unmarshal.Reading.{reader, next_slice-reader, read-append}

-- The terminator is not among the bytes.
abbrev pub Lacks : ℕ → List ℕ → Type 0
Lacks terminator [] = Unit {0}
Lacks terminator (c ∷ cs) = ((c == terminator) ≡ false) × Lacks terminator cs

pub scan-Lacks : (terminator : ℕ) (cs : List ℕ) → Lacks terminator (scan terminator cs)
unfolding scan
scan-Lacks terminator [] = tt
scan-Lacks terminator (c ∷ cs) = elim (Bool-cases (c == terminator)) [
  | inl e ↦ rw e tt
  | inr e ↦ rw e (e, scan-Lacks terminator cs)
]

first_byte-reader :
    (pre rest : List ℕ) (c : ℕ) → first_byte (read (length pre) 1 ((pre ++ c ∷ []) ++ rest)) ≡ c
unfolding first_byte
first_byte-reader pre rest c = rw (append_assoc, read-append pre (c ∷ []) rest) (omega arith)

until_step :
    (fuel terminator : ℕ) (cbuf : Option ℕ) (len c : ℕ) (pre rest : List ℕ)
    → length pre + 1 + length rest < 2 ^ 64
    → unmarshal_until (suc fuel) terminator cbuf len (reader pre (c ∷ rest)) ≡ (
        if c == terminator
        then (carried (started cbuf (length pre)) (len + 1 + 1), reader (pre ++ c ∷ []) rest)
        else unmarshal_until fuel terminator
            (started cbuf (length pre))
            (len + 1)
            (reader (pre ++ c ∷ []) rest))
unfolding unmarshal_until until_round
until_step fuel terminator cbuf len c pre rest h =
    rw (next_slice-reader pre (c ∷ []) rest h, until_round, first_byte-reader)

started_twice : (cbuf : Option ℕ) (a b : ℕ) → started (started cbuf a) b ≡ started cbuf a
started_twice none a b = refl
started_twice (some first) a b = refl

-- The loop reads up to the terminator and over it, and gives the carrier one byte more than that.
pub until_found :
    (found : List ℕ) (terminator : ℕ) (pre rest : List ℕ) (fuel : ℕ) (cbuf : Option ℕ) (len : ℕ)
    → Lacks terminator found
    → length found < fuel
    → length pre + (length found + 1) + length rest < 2 ^ 64
    → unmarshal_until fuel terminator cbuf len (reader pre (found ++ (terminator ∷ rest))) ≡ (
      carried (started cbuf (length pre)) (len + length found + 2),
      reader (pre ++ (found ++ terminator ∷ [])) rest,
    )
until_found found terminator pre rest zero cbuf len lacks h k = elim h [ ]
until_found [] terminator pre rest (suc fuel) cbuf len lacks h k =
    until_step fuel terminator cbuf len terminator pre rest (omega arith) ∙ ground arith
until_found (c ∷ cs) terminator pre rest (suc fuel) cbuf len lacks h k =
    let next = pre ++ c ∷ [] in
    let wide : length next ≡ length pre + 1 = length-append pre (c ∷ []) in
    let tail = cs ++ (terminator ∷ rest) in
    let cbuf' = started cbuf (length pre) in
    until_step fuel terminator cbuf len c pre tail
      (omega (arith, length-append cs (terminator ∷ rest)))
    ∙ ground (
      arith,
      until_found cs terminator next rest fuel cbuf' (len + 1),
      started_twice cbuf (length pre) (length next),
      append_assoc pre (c ∷ []) (cs ++ terminator ∷ []),
    )

next_slice_end :
    (pre : List ℕ)
    → length pre + 1 < 2 ^ 64
    → next_slice 1 (reader pre []) ≡ (none, record (reader pre []) { error = true })
unfolding next_slice
next_slice_end pre h = ground (arith, length-append pre [])

-- Where the terminator is missing the loop ends with the error flag, and the carrier is left as
-- it was.
pub until_missing :
    (cs : List ℕ) (terminator : ℕ) (pre : List ℕ) (fuel : ℕ) (cbuf : Option ℕ) (len : ℕ)
    → Lacks terminator cs
    → length cs < fuel
    → length pre + length cs + 1 < 2 ^ 64
    → unmarshal_until fuel terminator cbuf len (reader pre cs)
      ≡ (untouched, record (reader (pre ++ cs) []) { error = true })
unfolding unmarshal_until
until_missing cs terminator pre zero cbuf len lacks h k = elim h [ ]
until_missing [] terminator pre (suc fuel) cbuf len lacks h k =
    rw (next_slice_end pre (omega arith), until_round)
      (ap (λ xs. (untouched, record (reader xs []) { error = true })) (sym (append-nil pre)))
until_missing (c ∷ cs) terminator pre (suc fuel) cbuf len lacks h k =
    let next = pre ++ c ∷ [] in
    let wide : length next ≡ length pre + 1 = length-append pre (c ∷ []) in
    until_step fuel terminator cbuf len c pre cs (omega arith)
    ∙ ground (
      arith,
      until_missing cs terminator next fuel (started cbuf (length pre)) (len + 1),
      append_assoc pre (c ∷ []) cs,
    )
