-- ===== src/Tests/Window.antt =====
-- The share window and the ledger around it, run on shares of two miners.
use ratum.Base.{
  ℕ, ◌≤◌, ◌≡◌, ◌≢◌, ◌⊎◌, refl, arith, List, [], ◌∷◌, Option, none, some, true, false, min, length,
  All, ltb, drop,
}
use ratum.Ledger.Split.{Name, Entry, total_weight}
use ratum.Ledger.Window.{
  Share, Contents, push, drop_oldest, trim, is_spare, index_of, take_index, entry_at, set_entry,
  credit_at, trim_work, trim_count, drop_oldest_of, debit_at, release,
}
use ratum.Ledger.Window.Sound.{Refines}
use ratum.Ledger.Window.Push.{push-Refines}
use ratum.Ledger.Window.Drop.{drop_oldest-Refines}
use ratum.Ledger.Window.Trim.{trim-Refines, trim-bounds, Refines-length}
use ratum.Ledger.Window.Weights.{weights, weights-total, weights-work_in, work_in}
use ratum.Ledger.Record.{
  insert_into, take_shares, trim_ledger, retain_batch, is_count_capped, StoreApi, Ledger,
  empty_contents, record_batch, begin_reread, finish_reread,
}
use ratum.Ledger.Record.Taken.{
  Holds, IsRecorded, Refuses, read-Refines, empty_contents-Refines, record_batch-IsRecorded,
  trimmed, taken,
}
use ratum.Ledger.Record.Reread.{recorded, stop, reread-keeps_recorded}

abbrev ann : Name
ann = 97 ∷ []

abbrev bob : Name
bob = 98 ∷ []

abbrev share_of : Name → ℕ → ℕ → Share
share_of n t d = record { accepted_at = t; identity = n; difficulty = d; tag_secondary = [] }

abbrev three : List Share
three = share_of ann 10 4 ∷ share_of bob 11 6 ∷ share_of ann 12 5 ∷ []

abbrev read_back : Contents
read_back = (read-Refines 100 10 three (omega arith)).0

abbrev held : List Entry
held = (ann, 4) ∷ (bob, 6) ∷ (ann, 5) ∷ []

read_back-Refines : Refines read_back held
read_back-Refines = (read-Refines 100 10 three (omega arith)).2

push-Refines_example :
    (c : Contents) × (push read_back (share_of bob 13 7) ≡ some c)
    × Refines c ((ann, 4) ∷ (bob, 6) ∷ (ann, 5) ∷ (bob, 7) ∷ [])
push-Refines_example =
    push-Refines read_back held read_back-Refines (share_of bob 13 7)
      (omega (arith, Refines-length read_back held read_back-Refines))

drop_oldest-Refines_example :
    (c : Contents) × (drop_oldest read_back ≡ some c)
    × Refines c ((bob, 6) ∷ (ann, 5) ∷ [])
    × (c.shares ≡ drop 1 read_back.shares)
drop_oldest-Refines_example = drop_oldest-Refines read_back held read_back-Refines

trim-Refines_example :
    (c : Contents) × (trim read_back 10 2 ≡ some c) × Refines c ((bob, 6) ∷ (ann, 5) ∷ [])
trim-Refines_example = trim-Refines read_back held 10 2 read_back-Refines

trim-bounds_example :
    (c : Contents) × (trim read_back 10 5 ≡ some c)
    × (length c.shares ≤ 5)
    × ((length c.shares ≡ 5)
        ⊎ ((min 10 read_back.total_work ≤ c.total_work) × (is_spare 10 c ≡ false)))
trim-bounds_example = trim-bounds read_back held 10 5 read_back-Refines

weights-total_example : total_weight (weights read_back) ≡ read_back.total_work
weights-total_example = weights-total read_back held read_back-Refines

weights-work_in_example : All (λ p. p.1 ≡ work_in p.0 held) (weights read_back)
weights-work_in_example = weights-work_in read_back held read_back-Refines

-- A store that keeps the shares it is given, and the work beside them.
abbrev Kept : Type 0
Kept = List (List Share) × ℕ

abbrev keeping : StoreApi Kept Kept
keeping = record {
  insert_batch = λ st ss work. some (ss ∷ st.0, work);
  retain = λ st floor after newest. some (0, st);
  begin_read = λ st. some st;
  window_rows = λ st window bound. none;
  stored_work = λ st. st.1;
}

abbrev ledger : Ledger Kept
ledger = record {
  contents = empty_contents;
  split_policy = record { fee_bps = 0 };
  window = 8;
  store = some ([], 0);
  cumulative_work = 0;
  max_shares = 4;
  count_capped = false;
  reread_due = true;
  recorded_during_reread = none;
}

ledger-Holds : Holds ledger []
unfolding is_count_capped
ledger-Holds = record {
  refines = empty_contents-Refines;
  capped = refl;
  few = omega arith;
  narrow = omega arith;
}

record_batch-IsRecorded_example :
    (answer : Option ℕ) × (l : Ledger Kept) × (record_batch keeping ledger three ≡ some (answer, l))
    × (((answer ≡ none) × (l ≡ ledger) × Refuses keeping ledger.store three 15)
        ⊎ ((answer ≢ none) × IsRecorded keeping ledger l [] three))
record_batch-IsRecorded_example = record_batch-IsRecorded keeping ledger [] three ledger-Holds

abbrev begun : Ledger Kept
begun = (begin_reread keeping ledger).1

-- A batch of two shares is recorded while the re-read runs.
abbrev batch : List Share
batch = share_of ann 20 3 ∷ share_of bob 21 7 ∷ []

recorded_batch : (l : Ledger Kept) × (record_batch keeping begun batch ≡ some (some 0, l))
unfolding record_batch insert_into take_shares push index_of take_index entry_at set_entry credit_at
    trim_ledger trim trim_work trim_count is_spare retain_batch begin_reread is_count_capped
    drop_oldest drop_oldest_of debit_at release
recorded_batch = (_, refl)

begin_reread-begun : begin_reread keeping ledger ≡ (some (([], 0), 8, 4), begun)
unfolding begin_reread
begin_reread-begun = refl

reread-keeps_recorded_example :
    (gained : ℕ) × (l : Ledger Kept) × (finish_reread recorded_batch.0 8 (some read_back)
      ≡ some (gained, recorded_batch.0.contents, l))
    × Holds l (taken recorded_batch.0.window 4 (trimmed recorded_batch.0.window 4 held) batch)
    × (l.recorded_during_reread ≡ none)
    × (l.reread_due ≡ ltb 8 recorded_batch.0.window)
reread-keeps_recorded_example =
    reread-keeps_recorded keeping ledger begun recorded_batch.0 [] held ([], 0) 8 4 batch read_back
      ledger-Holds begin_reread-begun (recorded batch 0 recorded_batch.1 stop) read_back-Refines
