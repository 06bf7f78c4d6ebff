-- ===== src/Kernel/Tasks/Texts.antt =====
-- Trimming, and the regular expressions of packages/kernel/src/tasks.ts as functions.
use apex_vnext.Common.{
  ℕ, ◌+◌, Bool, true, false, ◌&&◌, ◌||◌, [], ◌∷◌, ◌==◌, nat_Eq, leb, if◌then◌else◌, map,
}
use apex_vnext.Kernel.Canonical.{Text, text_Eq}

-- The white space and the line ends that `trim` removes.
is_blank : ℕ → Bool
is_blank c =
    (leb 9 c && leb c 13)
    || (c == 32
        || (c == 160
            || (c == 0x1680
                || ((leb 0x2000 c && leb c 0x200a)
                    || (c == 0x2028
                        || (c == 0x2029
                            || (c == 0x202f || (c == 0x205f || (c == 0x3000 || c == 0xfeff)))))))))

abbrev pub is_empty : Text → Bool
is_empty [] = true
is_empty (_ ∷ _) = false

trim_end : Text → Text
unfolding is_blank
trim_end [] = []
trim_end (c ∷ s) = let rest = trim_end s in if is_blank c && is_empty rest then [] else c ∷ rest

unfoldable pub trim : Text → Text
unfolding is_blank trim_end
trim [] = []
trim (c ∷ s) = let rest = trim s in if is_blank c then rest else c ∷ trim_end s

-- A match with `/^word$/iu` for a word of ASCII letters other than k and s.
lower : ℕ → ℕ
lower c = if leb 65 c && leb c 90 then c + 32 else c

unfoldable pub is_word : Text → Text → Bool
unfolding lower
is_word word t = map lower t == word

-- `/^[a-z0-9]+(?:-[a-z0-9]+)*$/u`; `started` says that a part has begun.
is_part : ℕ → Bool
is_part c = (leb 97 c && leb c 122) || (leb 48 c && leb c 57)

slug_from : Bool → Text → Bool
unfolding is_part
slug_from started [] = started
slug_from started (c ∷ s) =
    let inside = slug_from true s in
    let next = slug_from false s in if is_part c then inside else (c == b'-' && (started && next))

unfoldable pub is_environment_name : Text → Bool
unfolding slug_from
is_environment_name t = slug_from false t
