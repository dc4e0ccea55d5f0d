-- ===== src/Tests/Withholding.antt =====
-- A session that rotates, closes and comes back, and a slot whose time has come.
use ratum.Base.{◌==◌, if◌then◌else◌, ◌≡◌, refl, arith, List, [], ◌∷◌, none, true, false}
use ratum.Abw.{AbwSlotState, empty, seeded, retired, revealed, rotate, reveals_due}
use ratum.Abw.Session.{
  Op, connecting, resuming, sharing, tip, publishing, rotating, revealing, steps,
}
use ratum.Abw.Kept.{Silent, Kept}
use ratum.Abw.Delay.{steps-Kept_rotated}
use ratum.Abw.Due.{IsIn, first_reveal, reveals_due-IsIn}

abbrev session : AbwSlotState
session = record {
  slots = λ j. if j == 0 then seeded (1 ∷ []) else empty;
  active = 0;
  shares_since_activation = 0;
  activated_at = 0;
  held_until = 0;
  tip_rotation_pending = false;
  published = λ j. false;
}

abbrev life : List Op
life =
    sharing
    ∷ tip 90_000
    ∷ rotating 90_000 90_001 (3 ∷ [])
    ∷ resuming 95_000
    ∷ connecting 96_000
    ∷ publishing 0
    ∷ revealing 300_999
    ∷ []

steps-Kept_rotated_example :
    Silent 0 ((steps (λ key. key) life ((rotate (λ key. key) session 1000 (2 ∷ [])).1)).0)
    × Kept
        ((steps (λ key. key) life ((rotate (λ key. key) session 1000 (2 ∷ [])).1)).1)
        0
        (1 ∷ [])
        301_000
steps-Kept_rotated_example =
    steps-Kept_rotated (λ key. key) life session 1000 (2 ∷ []) (1 ∷ []) refl
      (tt, (tt, (tt, (omega arith, (tt, (tt, (omega arith, tt)))))))

abbrev delayed : AbwSlotState
delayed = record {
  slots = λ j. if j == 15 then retired (4 ∷ []) 500 true else empty;
  active = 0;
  shares_since_activation = 0;
  activated_at = 200;
  held_until = 450;
  tip_rotation_pending = false;
  published = λ j. false;
}

reveals_due-IsIn_example :
    IsIn (first_reveal 15 (4 ∷ [])) ((reveals_due delayed 500).0)
    × (((reveals_due delayed 500).1).slots 15 ≡ revealed (4 ∷ []) none)
reveals_due-IsIn_example =
    reveals_due-IsIn delayed 500 15 500 (4 ∷ []) true (omega arith) refl (omega arith) (omega arith)
