-- ===== src/Element/Utf8.antt =====
-- bytes.decode() of Python, which xcap/element.py calls on documents: strict UTF-8.
use openxcap.Prelude.{
  ℕ, zero, suc, ◌+◌, ◌-◌, ◌*◌, ◌<◌, ◌≡◌, refl, Bool, not, ◌&&◌, Option, none, some, List, [], ◌∷◌,
  Str, if◌then◌else◌, ltb, leb, All, arith,
}

-- what a lead byte announces: how many bytes follow, the bits it carries, the least code point
lead : ℕ → Option (ℕ × ℕ × ℕ)
lead b =
    if ltb b 0x80
    then some (0, b, 0)
    else if ltb b 0xc2
    then none
    else if ltb b 0xe0
    then some (1, b - 0xc0, 0x80)
    else if ltb b 0xf0
    then some (2, b - 0xe0, 0x800)
    else if ltb b 0xf5
    then some (3, b - 0xf0, 0x10000)
    else none

-- no overlong form, no surrogate, nothing above U+10FFFF
is_scalar : ℕ → ℕ → Bool
is_scalar low c = leb low c && (leb c 0x10ffff && not (leb 0xd800 c && ltb c 0xe000))

-- `need` continuation bytes are still to come for the code point with the bits `acc`
decode_from : ℕ → ℕ → ℕ → List ℕ → Option Str
unfolding lead is_scalar
decode_from zero acc low [] = some []
decode_from (suc n) acc low [] = none
decode_from zero acc low (b ∷ s) = elim (lead b) [
  | none ↦ none
  | some (zero, c, low') ↦ (elim (decode_from zero 0 0 s) [ none ↦ none | some t ↦ some (c ∷ t) ])
  | some (suc need, c, low') ↦ decode_from (suc need) c low' s
]
decode_from (suc n) acc low (b ∷ s) =
    let c = acc * 64 + (b - 0x80) in
    if leb 0x80 b && ltb b 0xc0
    then (elim n [
      | zero ↦
          (if is_scalar low c
            then (elim (decode_from zero 0 0 s) [ none ↦ none | some t ↦ some (c ∷ t) ])
            else none)
      | suc m ↦ decode_from (suc m) c low s
    ])
    else none

unfoldable pub utf8_decode : List ℕ → Option Str
unfolding decode_from
utf8_decode s = decode_from 0 0 0 s

abbrev pub IsAscii : List ℕ → Type 0
IsAscii s = All (λ b. b < 128) s

-- An ASCII text is its own decoding.
pub utf8_decode_of_IsAscii : (s : List ℕ) → IsAscii s → utf8_decode s ≡ some s
unfolding utf8_decode
utf8_decode_of_IsAscii [] h = refl
utf8_decode_of_IsAscii (b ∷ s) h = ground (arith, utf8_decode_of_IsAscii s h.1)

e_acute : utf8_decode (0xc3 ∷ 0xa9 ∷ 0x21 ∷ []) ≡ some (0xe9 ∷ 0x21 ∷ [])
unfolding utf8_decode
e_acute = refl
