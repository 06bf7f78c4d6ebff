-- ===== src/Kernel/Evidence/Texts.antt =====
-- Tests on texts and their size in bytes, for packages/kernel/src/evidence-store.ts.
use apex_vnext.Common.{
  ℕ, ◌+◌, Bool, true, false, ◌&&◌, ◌||◌, [], ◌∷◌, ◌==◌, nat_Eq, leb, ltb, if◌then◌else◌,
}
use apex_vnext.Kernel.Canonical.{Text}

unfoldable pub lower : ℕ → ℕ
lower c = if leb 65 c && leb c 90 then c + 32 else c

starts : Text → Text → Bool
starts [] t = true
starts (c ∷ s) [] = false
starts (c ∷ s) (d ∷ t) = c == d && starts s t

unfoldable pub contains : Text → Text → Bool
unfolding starts
contains word [] = starts word []
contains word (c ∷ t) = starts word (c ∷ t) || contains word t

-- The number of the bytes of a text in UTF-8.
is_high : ℕ → Bool
is_high c = leb 0xd800 c && leb c 0xdbff

is_low : ℕ → Bool
is_low c = leb 0xdc00 c && leb c 0xdfff

unit_size : ℕ → ℕ
unit_size c = if ltb c 0x80 then 1 else if ltb c 0x800 then 2 else 3

unfoldable pub utf8_size : Text → ℕ
unfolding is_high is_low unit_size
utf8_size [] = 0
utf8_size (c ∷ []) = unit_size c
utf8_size (c ∷ d ∷ s) =
    let pair = utf8_size s in
    let single = utf8_size (d ∷ s) in
    if is_high c && is_low d then 4 + pair else unit_size c + single
