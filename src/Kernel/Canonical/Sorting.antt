-- ===== src/Kernel/Canonical/Sorting.antt =====
-- `Array.prototype.sort` on texts, without a comparator, as the kernel uses it in several places.
use apex_vnext.Common.{List, [], ◌∷◌, if◌then◌else◌}
use apex_vnext.Kernel.Canonical.{Text, text_lt}

unfoldable pub place_text : Text → List Text → List Text
place_text t [] = t ∷ []
place_text t (u ∷ us) = let later = place_text t us in if text_lt t u then t ∷ u ∷ us else u ∷ later

unfoldable pub sort_texts : List Text → List Text
sort_texts [] = []
sort_texts (t ∷ ts) = place_text t (sort_texts ts)
