-- ===== src/Layout/Examples.antt =====
-- The theorems on the layout at concrete destinations.
use arq_backup_tui.Common.{◌≡◌, refl, true, List, [], ◌∷◌}
use mathlib.Core.List.{Permᴰ}
use mathlib.Core.List.Permᴰ
use arq_backup_tui.Wire.Types.{Text}
use arq_backup_tui.Layout.Discover.{discover_layout}
use arq_backup_tui.Layout.Order.{discover_layout-in_turn}
use arq_backup_tui.Gc.Disk.{disk_backend}
use arq_backup_tui.Gc.Sample.{sample}
use arq_backup_tui.Gc.SamplePlaces.{root}

-- The second thread ends before the first.
abbrev second_first : List Text → List Text
second_first (a ∷ c ∷ names) = c ∷ a ∷ names
second_first (a ∷ []) = a ∷ []
second_first [] = []

second_first-Permᴰ : (names : List Text) → Permᴰ (second_first names) names
second_first-Permᴰ (a ∷ c ∷ names) = Permᴰ.swap refl refl
second_first-Permᴰ (a ∷ []) = Permᴰ.refl (a ∷ [])
second_first-Permᴰ [] = Permᴰ.nil

discover_layout-in_turn_example :
    discover_layout disk_backend second_first sample root 8 true
    ≡ discover_layout disk_backend (λ names. names) sample root 8 true
discover_layout-in_turn_example =
    discover_layout-in_turn disk_backend second_first second_first-Permᴰ sample root 8 true
