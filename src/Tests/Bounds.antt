-- ===== src/Tests/Bounds.antt =====
-- The bounded map at fixed values.
use ratum.Base.{ℕ, ◌≡◌, refl, [], ◌∷◌, none}
use ratum.Bounded.{BoundedMap, insert, renewed_order, evict}
use ratum.Bounded.Capacity.{IsBounded, insert-IsBounded}

abbrev full : BoundedMap ℕ
full = record { entries = (1, 10) ∷ (2, 20) ∷ []; order = 1 ∷ 2 ∷ []; capacity = 2 }

insert_run :
    insert full 3 30
    ≡ (none, record { entries = (2, 20) ∷ (3, 30) ∷ []; order = 2 ∷ 3 ∷ []; capacity = 2 })
unfolding insert renewed_order evict
insert_run = refl

insert-IsBounded_example : IsBounded ((insert full 3 30).1)
insert-IsBounded_example = insert-IsBounded full 3 30 (λ x c. c)
